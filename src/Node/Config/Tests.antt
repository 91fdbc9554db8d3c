-- ===== src/Node/Config/Tests.antt =====
-- The configuration of a node at concrete files.
use rtc_bridge.Prelude.{
  Bytes, Distinct, Map, [], bytes_eq, codes, inl, inr, lookup, refl, replicate, some, subst, ◌∷◌,
  ◌≡◌,
}
use rtc_bridge.Json.{
  Value, text, array, object, no_items, item, no_fields, field, Fields, field_list, IsFormats,
  read_object,
}
use rtc_bridge.Json.Samples.{holding, holding-IsFormats}
use rtc_bridge.Node.Config.{
  Config, load_config, in_strings, unknown_keys, reject_unknown, services_field, coordinators_field,
  load_object, load_services, load_coordinators, unknown_fields, service_empty,
  coordinator_not_string,
}
use rtc_bridge.Node.Config.Acceptance.{node_config_iff}

abbrev pub key : Bytes
key = replicate 64 7

abbrev raw : Map Value
raw =
    (codes "key", text key)
    ∷ (codes "services", object (field (codes "echo") (text (codes "127.0.0.1:7777")) no_fields))
    ∷ (codes "coordinators", array (item (text (codes "ws://c")) no_items))
    ∷ []

abbrev config : Config
config = record {
  services = (codes "echo", codes "127.0.0.1:7777") ∷ [];
  coordinators = codes "ws://c" ∷ [];
  priv_key = key;
}

fields_of : {m n : Fields} → object m ≡ object n → m ≡ n
fields_of e = cc

raw-IsFormats : IsFormats (holding raw)
unfolding lookup bytes_eq
raw-IsFormats =
    holding-IsFormats raw (refl, (refl, (refl, tt)))
      (
        (λ o e. cc),
        ((λ o e. subst (λ m. Distinct (field_list m)) (fields_of e) (refl, tt)), ((λ o e. cc), tt)),
      )

node_config_iff_example : load_config (holding raw) (some []) ≡ inr config
unfolding read_object in_strings bytes_eq lookup
node_config_iff_example = (node_config_iff (holding raw) (some []) config raw-IsFormats).1 (
  raw,
  refl,
  record {
    known = (refl, (refl, (refl, tt)));
    services = inl refl;
    addresses = ((λ z. cc), tt);
    coordinators = refl;
    urls = ((λ z. cc), tt);
    some_coordinator = λ z. cc;
    key = (key, refl, refl);
    key_size = refl;
  },
)

-- An unknown field, an empty address and a coordinator that is a number are refused.
unknown_field :
    load_object (holding []) ((codes "prot", Value.null) ∷ raw)
    ≡ inl (
        unknown_fields
          (codes "config")
          (codes "prot" ∷ [])
          (codes "services" ∷ codes "coordinators" ∷ codes "key" ∷ []))
unfolding load_object reject_unknown unknown_keys in_strings bytes_eq
unknown_field = refl

empty_address :
    services_field (some (object (field (codes "echo") (text []) no_fields)))
    ≡ inl (service_empty (codes "echo"))
unfolding services_field load_services
empty_address = refl

number_coordinator :
    coordinators_field
      (some (array (item (text (codes "ws://c")) (item (Value.number 1) no_items))))
    ≡ inl (coordinator_not_string 1 (codes "number"))
unfolding coordinators_field load_coordinators
number_coordinator = refl
