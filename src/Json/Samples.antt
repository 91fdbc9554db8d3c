-- ===== src/Json/Samples.antt =====
-- A parser for the tests that knows one file, and a base64 that changes nothing.
use rtc_bridge.Prelude.{
  All, Bytes, Distinct, Map, [], codes, lookup, lookup-All, refl, some, subst, ◌∷◌, ◌≡◌,
}
use rtc_bridge.Json.{Formats, IsFormats, Value, text, object, Fields, field_list}

-- Whatever the text, it parses as this object.
abbrev pub holding : Map Value → Formats
holding raw = record {
  to_json = λ b. some b;
  decode_object = λ b. some raw;
  encode_base64 = λ b. b;
  decode_base64 = λ b. some b;
}

-- No object in the place of a value holds a key twice.
abbrev pub IsNested : Value → Type 0
IsNested v = (o : Fields) → v ≡ object o → Distinct (field_list o)

pub holding-IsFormats :
    (raw : Map Value) → Distinct raw → All (λ e. IsNested e.1) raw → IsFormats (holding raw)
holding-IsFormats raw d nested = record {
  decoded_distinct = λ b m e. subst Distinct (cc e) d;
  nested_distinct = λ b k m o e l.
      lookup-All IsNested k m (object o) (subst (All (λ v. IsNested v.1)) (cc e) nested) l o refl;
  base64_trip = λ b bytes. refl;
}

-- A file with an address only.
abbrev pub addr_object : Bytes → Map Value
addr_object addr = (codes "addr", text addr) ∷ []

addr-IsFormats : (addr : Bytes) → IsFormats (holding (addr_object addr))
unfolding lookup
addr-IsFormats addr = holding-IsFormats (addr_object addr) (refl, tt) ((λ o e. cc), tt)
