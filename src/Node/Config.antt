-- ===== src/Node/Config.antt =====
-- node/config.go.
pub mod Loops
pub mod Acceptance
pub mod Tests
use rtc_bridge.Prelude.{
  Bool, Bytes, List, Map, Option, [], bytes_eq, codes, false, if◌then◌else◌, inl, inr, insert,
  length, lookup, none, not, some, suc, ℕ, ◌++◌, ◌==◌, ◌||◌, ◌∷◌, ◌⊎◌,
}
use rtc_bridge.Json.{
  Formats, Value, text, array, object, as_text, as_items, as_fields, Items, no_items, item, Fields,
  no_fields, field, ReadError, read_object,
}

pub record Config : Type 0 where
  pub services : Map Bytes
  pub coordinators : List Bytes
  pub priv_key : Bytes

-- The errors of `LoadConfig`, with what their messages carry.
pub data ConfigError : Type 0 where
  unread : ReadError → ConfigError
  unknown_fields : Bytes → List Bytes → List Bytes → ConfigError
  services_not_object : Bytes → ConfigError
  service_not_string : Bytes → Bytes → ConfigError
  service_empty : Bytes → ConfigError
  coordinators_not_array : Bytes → ConfigError
  coordinator_not_string : ℕ → Bytes → ConfigError
  coordinator_empty : ℕ → ConfigError
  coordinators_missing : ConfigError
  key_missing : ConfigError
  key_not_string : Bytes → ConfigError
  key_not_base64 : ConfigError
  key_wrong_size : ℕ → ConfigError

-- `allowedTopLevel`.
abbrev pub allowed_top_level : List Bytes
allowed_top_level = codes "services" ∷ codes "coordinators" ∷ codes "key" ∷ []

unfoldable pub in_strings : Bytes → List Bytes → Bool
in_strings k [] = false
in_strings k (a ∷ l) = bytes_eq a k || in_strings k l

-- The keys of a map that are not allowed, as the loop over it meets them.
unfoldable pub unknown_keys : List Bytes → Map Value → List Bytes
unfolding in_strings
unknown_keys allowed [] = []
unknown_keys allowed ((k, v) ∷ m) =
    let rest = unknown_keys allowed m in if not (in_strings k allowed) then k ∷ rest else rest

-- `rejectUnknown`: `none` for no error.
unfoldable pub reject_unknown : Bytes → Map Value → List Bytes → Option ConfigError
unfolding unknown_keys
reject_unknown part raw allowed = elim (unknown_keys allowed raw) [
  | [] ↦ none
  | k ∷ rest ↦ some (unknown_fields part (k ∷ rest) allowed)
]

-- `typeName`.
abbrev pub type_name : Value → Bytes
type_name (Value.boolean b) = codes "boolean"
type_name (Value.number n) = codes "number"
type_name (text s) = codes "string"
type_name (array vs) = codes "array"
type_name (object m) = codes "object"
type_name Value.null = codes "null"

-- The loop over the services: `acc` is `cfg.Services`.
unfoldable pub load_services : Fields → Map Bytes → ConfigError ⊎ Map Bytes
load_services no_fields acc = inr acc
load_services (field name v m) acc = elim (as_text v) [
  | none ↦ inl (service_not_string name (type_name v))
  | some [] ↦ inl (service_empty name)
  | some (x ∷ addr) ↦ load_services m (insert name (x ∷ addr) acc)
]

-- The loop over the coordinators, from index `i` on: `acc` is `cfg.Coordinators`.
unfoldable pub load_coordinators : ℕ → Items → List Bytes → ConfigError ⊎ List Bytes
load_coordinators i no_items acc = inr acc
load_coordinators i (item v vs) acc = elim (as_text v) [
  | none ↦ inl (coordinator_not_string i (type_name v))
  | some [] ↦ inl (coordinator_empty i)
  | some (x ∷ s) ↦ load_coordinators (suc i) vs (acc ++ (x ∷ s) ∷ [])
]

-- The three parts of `LoadConfig`, on the value of the field.
unfoldable pub services_field : Option Value → ConfigError ⊎ Map Bytes
unfolding load_services
services_field none = inr []
services_field (some v) = elim (as_fields v) [
  | none ↦ inl (services_not_object (type_name v))
  | some m ↦ load_services m []
]

unfoldable pub coordinators_field : Option Value → ConfigError ⊎ List Bytes
unfolding load_coordinators
coordinators_field none = inl coordinators_missing
coordinators_field (some v) = elim (as_items v) [
  | none ↦ inl (coordinators_not_array (type_name v))
  | some vs ↦ elim (load_coordinators 0 vs []) [
    | inl e ↦ inl e
    | inr [] ↦ inl coordinators_missing
    | inr (u ∷ us) ↦ inr (u ∷ us)
  ]
]

unfoldable pub key_field : Formats → Option Value → ConfigError ⊎ Bytes
key_field f none = inl key_missing
key_field f (some v) = elim (as_text v) [
  | none ↦ inl (key_not_string (type_name v))
  | some s ↦ elim (f.decode_base64 s) [
    | none ↦ inl key_not_base64
    | some priv ↦ if not (length priv == 64) then inl (key_wrong_size (length priv)) else inr priv
  ]
]

-- `LoadConfig` from the object on.
unfoldable pub load_object : Formats → Map Value → ConfigError ⊎ Config
unfolding reject_unknown services_field coordinators_field key_field
load_object f raw = elim (reject_unknown (codes "config") raw allowed_top_level) [
  | some e ↦ inl e
  | none ↦ elim (services_field (lookup (codes "services") raw)) [
    | inl e ↦ inl e
    | inr services ↦ elim (coordinators_field (lookup (codes "coordinators") raw)) [
      | inl e ↦ inl e
      | inr coordinators ↦ elim (key_field f (lookup (codes "key") raw)) [
        | inl e ↦ inl e
        | inr priv ↦
            inr (record { services = services; coordinators = coordinators; priv_key = priv })
      ]
    ]
  ]
]

-- `LoadConfig` of a file's content, `none` when it cannot be read.
unfoldable pub load_config : Formats → Option Bytes → ConfigError ⊎ Config
unfolding load_object
load_config f file = elim (read_object f file) [
  | inl e ↦ inl (unread e)
  | inr raw ↦ load_object f raw
]

-- `GenerateSampleConfig`.
unfoldable pub generate_sample_config : Formats → Bytes → Bytes
generate_sample_config f priv =
    codes
      "{\n  // Map of service names to TCP host:port targets.\n  services: {\n    // example: \"127.0.0.1:7777\",\n  },\n\n  // Coordinator WebSocket URLs to register with.\n  coordinators: [\"wss://example.com/ws\"],\n\n  // Node identity key (ed25519 private key, base64). Generated by init.\n  key: \""
    ++ f.encode_base64 priv
    ++ codes "\",\n}\n"
