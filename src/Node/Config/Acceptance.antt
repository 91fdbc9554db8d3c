-- ===== src/Node/Config/Acceptance.antt =====
-- The configurations that node/config.go accepts.
use rtc_bridge.Prelude.{
  All, Bytes, Distinct, List, List-cases, Map, Option, Option-cases, Sum-cases, [], ap, arith,
  codes, inl, inr, length, lookup, none, refl, some, subst, sym, true, ◌↔◌, ◌∙◌, ◌∷◌, ◌≡◌, ◌≢◌, ◌⊎◌,
}
use rtc_bridge.Json.{
  Formats, IsFormats, Value, text, array, object, Fields, field_list, read_object,
  read_object-decoded,
}
use rtc_bridge.Node.Config.{
  Config, allowed_top_level, in_strings, unknown_keys, reject_unknown, services_field,
  coordinators_field, key_field, load_object, load_config,
}
use rtc_bridge.Node.Config.Loops.{
  services_value, coordinators_value, inr_injective, Distinct-field_list, services_field_sound,
  services_field_complete, coordinators_field_sound, coordinators_field_complete, key_text_iff,
  key_field-text,
}

-- An object says this configuration: it has the fields of the configuration and no other, no address
-- or URL is empty, there is a coordinator, and the key has 64 bytes. The services may be left out when
-- there are none.
pub record Says (f : Formats) (raw : Map Value) (cfg : Config) : Type 0 where
  pub known : All (λ e. in_strings e.0 allowed_top_level ≡ true) raw
  pub services :
      (lookup (codes "services") raw ≡ some (object (services_value cfg.services)))
      ⊎ ((lookup (codes "services") raw ≡ none) × (cfg.services ≡ []))
  pub addresses : All (λ e. e.1 ≢ []) cfg.services
  pub coordinators :
      lookup (codes "coordinators") raw ≡ some (array (coordinators_value cfg.coordinators))
  pub urls : All (λ u. u ≢ []) cfg.coordinators
  pub some_coordinator : cfg.coordinators ≢ []
  pub key :
      (k : Bytes) × (lookup (codes "key") raw ≡ some (text k))
      × (f.decode_base64 k ≡ some cfg.priv_key)
  pub key_size : length cfg.priv_key ≡ 64

unknown_keys_iff :
    (allowed : List Bytes) (m : Map Value)
    → (unknown_keys allowed m ≡ []) ↔ All (λ e. in_strings e.0 allowed ≡ true) m
unfolding unknown_keys
unknown_keys_iff allowed [] = ground arith
unknown_keys_iff allowed ((k, v) ∷ m) = ground (arith, unknown_keys_iff allowed m)

reject_unknown_iff :
    (part : Bytes) (raw : Map Value) (allowed : List Bytes)
    → (reject_unknown part raw allowed ≡ none) ↔ All (λ e. in_strings e.0 allowed ≡ true) raw
unfolding reject_unknown
reject_unknown_iff part raw allowed = elim (List-cases (unknown_keys allowed raw)) [
  | inl e ↦ ground (arith, e, unknown_keys_iff allowed raw)
  | inr (k, e) ↦ ground (arith, e, unknown_keys_iff allowed raw)
]

-- What the steps of `load_object` returned when it returned a configuration.
load_object-steps :
    (f : Formats) (raw : Map Value) (cfg : Config)
    → load_object f raw ≡ inr cfg
    → (reject_unknown (codes "config") raw allowed_top_level ≡ none)
      × (services_field (lookup (codes "services") raw) ≡ inr cfg.services)
      × (coordinators_field (lookup (codes "coordinators") raw) ≡ inr cfg.coordinators)
      × (key_field f (lookup (codes "key") raw) ≡ inr cfg.priv_key)
unfolding load_object
load_object-steps f raw cfg h =
    elim (Option-cases (reject_unknown (codes "config") raw allowed_top_level)) [
      | inr (e, r) ↦ let is = rw (load_object, r) at h in cc
      | inl r ↦ elim (Sum-cases (services_field (lookup (codes "services") raw))) [
        | inl (e, s) ↦ let is = rw (load_object, r, s) at h in cc
        | inr (services, s) ↦
            elim (Sum-cases (coordinators_field (lookup (codes "coordinators") raw))) [
              | inl (e, c) ↦ let is = rw (load_object, r, s, c) at h in cc
              | inr (coordinators, c) ↦ elim (Sum-cases (key_field f (lookup (codes "key") raw))) [
                | inl (e, k) ↦ let is = rw (load_object, r, s, c, k) at h in cc
                | inr (priv, k) ↦
                    let is = inr_injective (rw (load_object, r, s, c, k) at h) in
                    (
                      r,
                      s ∙ ap (λ g. inr g.services) is,
                      c ∙ ap (λ g. inr g.coordinators) is,
                      k ∙ ap (λ g. inr g.priv_key) is,
                    )
              ]
            ]
      ]
    ]

load_object-Says :
    (f : Formats) (raw : Map Value) (cfg : Config)
    → ((m : Fields) → lookup (codes "services") raw ≡ some (object m) → Distinct (field_list m))
    → load_object f raw ≡ inr cfg
    → Says f raw cfg
load_object-Says f raw cfg d h =
    let (r, s, c, k) = load_object-steps f raw cfg h in
    let services = services_field_sound (lookup (codes "services") raw) cfg.services d s in
    let coordinators =
      coordinators_field_sound (lookup (codes "coordinators") raw) cfg.coordinators c in
    let (key, is) = key_field-text f (lookup (codes "key") raw) cfg.priv_key k in
    let valid =
      (key_text_iff f key cfg.priv_key).0 (subst (λ o. key_field f o ≡ inr cfg.priv_key) is k) in
    record {
      known = (reject_unknown_iff (codes "config") raw allowed_top_level).0 r;
      services = services.0;
      addresses = services.1;
      coordinators = coordinators.0;
      urls = coordinators.2;
      some_coordinator = coordinators.1;
      key = (key, is, valid.0);
      key_size = valid.1;
    }

Says-services :
    (f : Formats) (raw : Map Value) (cfg : Config)
    → ((m : Fields) → lookup (codes "services") raw ≡ some (object m) → Distinct (field_list m))
    → Says f raw cfg
    → services_field (lookup (codes "services") raw) ≡ inr cfg.services
unfolding services_field
Says-services f raw cfg d says = elim says.services [
  | inl e ↦
      let distinct = Distinct-field_list cfg.services (d (services_value cfg.services) e) in
      ap services_field e ∙ services_field_complete cfg.services distinct says.addresses
  | inr (e, empty) ↦ ap services_field e ∙ ap inr (sym empty)
]

Says-load_object :
    (f : Formats) (raw : Map Value) (cfg : Config)
    → ((m : Fields) → lookup (codes "services") raw ≡ some (object m) → Distinct (field_list m))
    → Says f raw cfg
    → load_object f raw ≡ inr cfg
unfolding load_object
Says-load_object f raw cfg d says =
    let known = (reject_unknown_iff (codes "config") raw allowed_top_level).1 says.known in
    let services = Says-services f raw cfg d says in
    let coordinators =
      ap coordinators_field says.coordinators
      ∙ coordinators_field_complete cfg.coordinators says.some_coordinator says.urls in
    let (k, e, decoded) = says.key in
    let key = ap (key_field f) e ∙ (key_text_iff f k cfg.priv_key).1 (decoded, says.key_size) in
    rw (load_object, known, services, coordinators, key) refl

-- For any parser and base64 of the documented kind: `LoadConfig` returns a configuration just when
-- the file can be read and parsed, and the object in it says this configuration.
pub node_config_iff :
    (f : Formats) (file : Option Bytes) (cfg : Config)
    → IsFormats f
    → (load_config f file ≡ inr cfg)
      ↔ ((raw : Map Value) × (read_object f file ≡ inr raw) × Says f raw cfg)
unfolding load_config
node_config_iff f file cfg ok = (
  λ h. elim (Sum-cases (read_object f file)) [
    | inl (e, read) ↦ let is = rw (load_config, read) at h in cc
    | inr (raw, read) ↦
        (raw, read, load_object-Says f raw cfg (distinct raw read) (rw (load_config, read) at h))
  ],
  λ (raw, read, says). rw (load_config, read) (Says-load_object f raw cfg (distinct raw read) says),
)
  where
    distinct :
        (raw : Map Value)
        → read_object f file ≡ inr raw
        → (m : Fields) → lookup (codes "services") raw ≡ some (object m)
        → Distinct (field_list m)
    distinct raw read m e =
        let (b, decoded) = read_object-decoded f file raw read in
        ok.nested_distinct b (codes "services") raw m decoded e
