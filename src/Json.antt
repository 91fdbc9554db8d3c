-- ===== src/Json.antt =====
-- The values that `json.Unmarshal` makes for an `interface{}`, and the reading of a configuration
-- file. The packages go-json5, `encoding/json` and `encoding/base64` are parameters.
pub mod Samples
use rtc_bridge.Prelude.{
  Bool, Bytes, Distinct, IsBytes, Map, Option, Option-cases, [], arith, bytes_eq, bytes_eq_iff,
  if◌then◌else◌, inl, inr, lookup, none, not, some, ℕ, ◌>>=◌, ◌∷◌, ◌≡◌, ◌⊎◌,
}

-- A float64 is the number of its 64 bits; no code looks into it.
mutual
  pub data Value : Type 0 where
    null : Value
    boolean : Bool → Value
    number : ℕ → Value
    text : Bytes → Value
    array : Items → Value
    object : Fields → Value

  pub data Items : Type 0 where
    no_items : Items
    item : Value → Items → Items

  pub data Fields : Type 0 where
    no_fields : Fields
    field : Bytes → Value → Fields → Fields

-- `v.(string)` with its second result.
abbrev pub as_text : Value → Option Bytes
as_text (text s) = some s
as_text _ = none

-- `v.([]interface{})`.
abbrev pub as_items : Value → Option Items
as_items (array vs) = some vs
as_items _ = none

-- `v.(map[string]interface{})`.
abbrev pub as_fields : Value → Option Fields
as_fields (object m) = some m
as_fields _ = none

-- The entries of an object, in the order in which a loop meets them.
abbrev pub field_list : Fields → Map Value
field_list no_fields = []
field_list (field k v m) = (k, v) ∷ field_list m

-- `to_json` is go-json5's reader up to its end; `decode_object` is `json.Unmarshal` into a
-- `map[string]interface{}`, empty for null.
pub record Formats : Type 0 where
  pub to_json : Bytes → Option Bytes
  pub decode_object : Bytes → Option (Map Value)
  pub encode_base64 : Bytes → Bytes
  pub decode_base64 : Bytes → Option Bytes

-- What the packages document: a map holds a key once, and base64 comes back.
pub record IsFormats (f : Formats) : Type 0 where
  pub decoded_distinct : (b : Bytes) (m : Map Value) → f.decode_object b ≡ some m → Distinct m
  pub nested_distinct :
      (b k : Bytes) (m : Map Value) (o : Fields)
      → f.decode_object b ≡ some m
      → lookup k m ≡ some (object o)
      → Distinct (field_list o)
  pub base64_trip : (b : Bytes) → IsBytes b → f.decode_base64 (f.encode_base64 b) ≡ some b

pub data ReadError : Type 0 where
  unreadable : ReadError
  unparsable : ReadError

-- The head of each `loadConfig`: `file` is what `os.ReadFile` returns.
unfoldable pub read_object : Formats → Option Bytes → ReadError ⊎ Map Value
read_object f none = inl unreadable
read_object f (some content) = elim (f.to_json content >>= f.decode_object) [
  | none ↦ inl unparsable
  | some raw ↦ inr raw
]

-- The first key of an object other than the one that is allowed, as the loop over it meets them.
unfoldable pub first_other : Bytes → Map Value → Option Bytes
first_other k [] = none
first_other k ((j, v) ∷ m) = if not (bytes_eq j k) then some j else first_other k m

-- A map that holds no key twice and no key but one has no other entry.
pub first_other-alone :
    (k : Bytes) (v : Value) (m : Map Value)
    → Distinct m
    → first_other k m ≡ none
    → lookup k m ≡ some v
    → m ≡ (k, v) ∷ []
unfolding first_other lookup
first_other-alone k v [] d h e = cc
first_other-alone k v ((j, w) ∷ []) d h e = ground (arith, bytes_eq_iff j k)
first_other-alone k v ((j, w) ∷ (i, u) ∷ m) d h e =
    ground (arith, bytes_eq_iff j k, bytes_eq_iff i k, bytes_eq_iff i j)

-- A map that reads as an object of the file.
pub read_object-decoded :
    (f : Formats) (file : Option Bytes) (raw : Map Value)
    → read_object f file ≡ inr raw
    → (b : Bytes) × (f.decode_object b ≡ some raw)
unfolding read_object
read_object-decoded f none raw h = cc
read_object-decoded f (some content) raw h = elim (Option-cases (f.to_json content)) [
  | inl e ↦ absurd (ground (arith, e, h))
  | inr (b, e) ↦ (b, ground (arith, e, h))
]
