-- ===== src/Echo.antt =====
-- echo/main.go: the configuration, and the service of a connection.
pub mod Command
mod Tests
use rtc_bridge.Json.{
  Formats, IsFormats, Value, text, as_text, ReadError, read_object, read_object-decoded,
  first_other, first_other-alone,
}
use rtc_bridge.Prelude.{
  Bool, Bool-cases, Bytes, Distinct, List, Map, Option, Option-cases, Sum-cases, [], ap, arith,
  bytes_eq, codes, false, if◌then◌else◌, inl, inr, length, lookup, map, none, refl, some, suc, take,
  true, ℕ, ◌++◌, ◌↔◌, ◌∙◌, ◌∷◌, ◌≡◌, ◌≢◌, ◌⊎◌,
}

pub data ConfigError : Type 0 where
  unread : ReadError → ConfigError
  unknown_field : Bytes → ConfigError
  addr_missing : ConfigError
  addr_not_string : ConfigError
  addr_empty : ConfigError

-- `loadConfig` from the value of `addr` on.
unfoldable pub load_addr : Option Value → ConfigError ⊎ Bytes
unfolding bytes_eq
load_addr none = inl addr_missing
load_addr (some v) = elim (as_text v) [
  | none ↦ inl addr_not_string
  | some addr ↦ if bytes_eq addr [] then inl addr_empty else inr addr
]

-- `loadConfig` from the object on.
unfoldable pub object_addr : Map Value → ConfigError ⊎ Bytes
unfolding load_addr first_other
object_addr raw = elim (first_other (codes "addr") raw) [
  | some k ↦ inl (unknown_field k)
  | none ↦ load_addr (lookup (codes "addr") raw)
]

-- `loadConfig` of a file's content, `none` when it cannot be read.
unfoldable pub load_config : Formats → Option Bytes → ConfigError ⊎ Bytes
unfolding object_addr
load_config f file = elim (read_object f file) [
  | inl e ↦ inl (unread e)
  | inr raw ↦ object_addr raw
]

load_addr_iff :
    (v : Value) (addr : Bytes) → (load_addr (some v) ≡ inr addr) ↔ ((v ≡ text addr) × (addr ≢ []))
unfolding load_addr bytes_eq
load_addr_iff (text []) addr = ground arith
load_addr_iff (text (x ∷ s)) addr = ground arith
load_addr_iff Value.null addr = ground arith
load_addr_iff (Value.boolean b) addr = ground arith
load_addr_iff (Value.number n) addr = ground arith
load_addr_iff (Value.array vs) addr = ground arith
load_addr_iff (Value.object m) addr = ground arith

object_addr-alone :
    (raw : Map Value) (addr : Bytes)
    → Distinct raw
    → object_addr raw ≡ inr addr
    → (raw ≡ (codes "addr", text addr) ∷ []) × (addr ≢ [])
unfolding object_addr load_addr
object_addr-alone raw addr d h = elim (Option-cases (first_other (codes "addr") raw)) [
  | inr (k, e) ↦ absurd (ground (arith, e, h))
  | inl e ↦ elim (Option-cases (lookup (codes "addr") raw)) [
    | inl l ↦ absurd (ground (arith, e, l, h))
    | inr (v, l) ↦
        let valid = (load_addr_iff v addr).0 (rw (object_addr, e, l) at h) in
        (
          first_other-alone (codes "addr") v raw d e l ∙ ap (λ x. (codes "addr", x) ∷ []) valid.0,
          valid.1,
        )
  ]
]

-- For any parser of the documented kind: `loadConfig` returns an address just when the file can
-- be read and parsed, and the object in it has the field `addr` and no other, with a string that is
-- not empty, which is the address it returns.
pub echo_config_iff :
    (f : Formats) (file : Option Bytes) (addr : Bytes)
    → IsFormats f
    → (load_config f file ≡ inr addr)
      ↔ ((read_object f file ≡ inr ((codes "addr", text addr) ∷ [])) × (addr ≢ []))
unfolding load_config object_addr first_other lookup bytes_eq
echo_config_iff f file addr ok = (
  λ h. elim (Sum-cases (read_object f file)) [
    | inl (e, read) ↦ absurd (ground (arith, read, h))
    | inr (raw, read) ↦
        let (b, decoded) = read_object-decoded f file raw read in
        let alone =
          object_addr-alone raw addr (ok.decoded_distinct b raw decoded)
            (rw (load_config, read) at h) in
        (read ∙ ap inr alone.0, alone.1)
  ],
  λ h. rw (load_config, h.0) ((load_addr_iff (text addr) addr).1 (refl, h.1)),
)

-- `sampleConfig`.
abbrev pub sample_config : Bytes
sample_config = codes "{\n  // TCP address to listen on.\n  addr: \"127.0.0.1:7777\",\n}\n"

-- A line that the scanner yields, with the time of the reply and whether the write succeeds.
pub record Line : Type 0 where
  pub line : Bytes
  pub time : Bytes
  pub written : Bool

-- `upper` is `strings.ToUpper`, `show` the format %d.
module _ (upper : Bytes → Bytes) (show : ℕ → Bytes) where
  abbrev pub reply : Line → Bytes
  reply l =
      codes "["
      ++ l.time
      ++ codes "] ("
      ++ show (length l.line)
      ++ codes " bytes) "
      ++ upper l.line
      ++ codes "\r\n"

  -- `handle`: what is written to the connection, up to a write that fails.
  unfoldable pub handle : List Line → List Bytes
  handle [] = []
  handle (l ∷ lines) = elim l.written [ true ↦ reply l ∷ handle lines | false ↦ reply l ∷ [] ]

  -- The number of lines up to the first whose reply cannot be written, that one included.
  abbrev pub answered : List Line → ℕ
  answered [] = 0
  answered (l ∷ lines) = if l.written then suc (answered lines) else 1

  -- The echo server writes one reply to each line, in order, up to the first write that fails.
  handle-take : (lines : List Line) → handle lines ≡ map reply (take (answered lines) lines)
  unfolding handle
  handle-take [] = refl
  handle-take (l ∷ lines) = elim (Bool-cases l.written) [
    | inl e ↦ rw (e, handle) (ap (◌∷◌ (reply l)) (handle-take lines))
    | inr e ↦ rw (e, handle) refl
  ]
