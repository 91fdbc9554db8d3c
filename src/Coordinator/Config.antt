-- ===== src/Coordinator/Config.antt =====
-- coordinator/config.go.
use rtc_bridge.Json.{
  Formats, IsFormats, Value, text, as_text, ReadError, read_object, read_object-decoded,
  first_other, first_other-alone,
}
use rtc_bridge.Prelude.{
  Bytes, Distinct, Map, Option, Option-cases, Sum-cases, [], ap, arith, bytes_eq, codes,
  if◌then◌else◌, inl, inr, lookup, none, refl, some, ◌↔◌, ◌∙◌, ◌∷◌, ◌≡◌, ◌≢◌, ◌⊎◌,
}

pub record Config : Type 0 where
  pub addr : Bytes

pub data ConfigError : Type 0 where
  unread : ReadError → ConfigError
  unknown_field : Bytes → ConfigError
  addr_missing : ConfigError
  addr_invalid : ConfigError

-- `loadConfig` from the value of `addr` on.
unfoldable pub load_addr : Option Value → ConfigError ⊎ Config
unfolding bytes_eq
load_addr none = inl addr_missing
load_addr (some v) = elim (as_text v) [
  | none ↦ inl addr_invalid
  | some addr ↦ if bytes_eq addr [] then inl addr_invalid else inr (record { addr = addr })
]

-- `loadConfig` from the object on.
unfoldable pub object_addr : Map Value → ConfigError ⊎ Config
unfolding load_addr first_other
object_addr raw = elim (first_other (codes "addr") raw) [
  | some k ↦ inl (unknown_field k)
  | none ↦ load_addr (lookup (codes "addr") raw)
]

-- `loadConfig` of a file's content, `none` when it cannot be read.
unfoldable pub load_config : Formats → Option Bytes → ConfigError ⊎ Config
unfolding object_addr
load_config f file = elim (read_object f file) [
  | inl e ↦ inl (unread e)
  | inr raw ↦ object_addr raw
]

load_addr_iff :
    (v : Value) (c : Config) → (load_addr (some v) ≡ inr c) ↔ ((v ≡ text c.addr) × (c.addr ≢ []))
unfolding load_addr bytes_eq
load_addr_iff (text []) c = ground arith
load_addr_iff (text (x ∷ s)) c = ground arith
load_addr_iff Value.null c = ground arith
load_addr_iff (Value.boolean b) c = ground arith
load_addr_iff (Value.number n) c = ground arith
load_addr_iff (Value.array vs) c = ground arith
load_addr_iff (Value.object m) c = ground arith

object_addr-alone :
    (raw : Map Value) (c : Config)
    → Distinct raw
    → object_addr raw ≡ inr c
    → (raw ≡ (codes "addr", text c.addr) ∷ []) × (c.addr ≢ [])
unfolding object_addr load_addr
object_addr-alone raw c d h = elim (Option-cases (first_other (codes "addr") raw)) [
  | inr (k, e) ↦ absurd (ground (arith, e, h))
  | inl e ↦ elim (Option-cases (lookup (codes "addr") raw)) [
    | inl l ↦ absurd (ground (arith, e, l, h))
    | inr (v, l) ↦
        let valid = (load_addr_iff v c).0 (rw (object_addr, e, l) at h) in
        (
          first_other-alone (codes "addr") v raw d e l ∙ ap (λ x. (codes "addr", x) ∷ []) valid.0,
          valid.1,
        )
  ]
]

-- For any parser of the documented kind: `loadConfig` returns a configuration just when the file can
-- be read and parsed, and the object in it has the field `addr` and no other, with a string that is
-- not empty, which is the configuration's address.
pub coordinator_config_iff :
    (f : Formats) (file : Option Bytes) (c : Config)
    → IsFormats f
    → (load_config f file ≡ inr c)
      ↔ ((read_object f file ≡ inr ((codes "addr", text c.addr) ∷ [])) × (c.addr ≢ []))
unfolding load_config object_addr first_other lookup bytes_eq
coordinator_config_iff f file c ok = (
  λ h. elim (Sum-cases (read_object f file)) [
    | inl (e, read) ↦ absurd (ground (arith, read, h))
    | inr (raw, read) ↦
        let (b, decoded) = read_object-decoded f file raw read in
        let alone =
          object_addr-alone raw c (ok.decoded_distinct b raw decoded)
            (rw (load_config, read) at h) in
        (read ∙ ap inr alone.0, alone.1)
  ],
  λ h. rw (load_config, h.0) ((load_addr_iff (text c.addr) c).1 (refl, h.1)),
)
