-- ===== src/Node/Config/Loops.antt =====
-- What the loops of node/config.go accept: the fields of an object, written from a configuration.
use rtc_bridge.Prelude.{
  All, Bytes, Distinct, List, Map, Option, Option-cases, Sum-cases, [], ap, append-nil,
  append_assoc, arith, bytes_eq, bytes_eq_iff, false, inl, inr, insert, length, lookup, none, refl,
  some, subst, suc, sym, ℕ, ◌++◌, ◌↔◌, ◌∙◌, ◌∷◌, ◌≡◌, ◌≢◌, ◌⊎◌,
}
use rtc_bridge.Json.{
  Formats, Value, text, array, object, Items, no_items, item, Fields, no_fields, field, field_list,
}
use rtc_bridge.Node.Config.{
  ConfigError, load_services, load_coordinators, services_field, coordinators_field, key_field,
}

-- The object of services, and the array of coordinators, that a configuration is written as.
abbrev pub services_value : Map Bytes → Fields
services_value [] = no_fields
services_value ((k, a) ∷ s) = field k (text a) (services_value s)

abbrev pub coordinators_value : List Bytes → Items
coordinators_value [] = no_items
coordinators_value (u ∷ us) = item (text u) (coordinators_value us)

pub inr_injective {ℓ} : {A : Type ℓ} {a b : A} → ◌≡◌ {A = ConfigError ⊎ A} (inr a) (inr b) → a ≡ b
inr_injective e = cc

load_coordinators_sound :
    (i : ℕ) (vs : Items) (acc us : List Bytes)
    → load_coordinators i vs acc ≡ inr us
    → ((new : List Bytes) × (vs ≡ coordinators_value new)
        × All (λ u. u ≢ []) new
        × (us ≡ acc ++ new))
unfolding load_coordinators
load_coordinators_sound i no_items acc us h = ([], refl, tt, ground (arith, append-nil acc, h))
load_coordinators_sound i (item (text (x ∷ u)) vs) acc us h =
    let (new, e, full, same) = load_coordinators_sound (suc i) vs (acc ++ (x ∷ u) ∷ []) us h in
    (
      (x ∷ u) ∷ new,
      ap (item (text (x ∷ u))) e,
      ((λ z. cc), full),
      same ∙ append_assoc acc ((x ∷ u) ∷ []) new,
    )
load_coordinators_sound i (item (text []) vs) acc us h = cc
load_coordinators_sound i (item Value.null vs) acc us h = cc
load_coordinators_sound i (item (Value.boolean b) vs) acc us h = cc
load_coordinators_sound i (item (Value.number n) vs) acc us h = cc
load_coordinators_sound i (item (array ws) vs) acc us h = cc
load_coordinators_sound i (item (object m) vs) acc us h = cc

load_coordinators_complete :
    (i : ℕ) (new acc : List Bytes)
    → All (λ u. u ≢ []) new
    → load_coordinators i (coordinators_value new) acc ≡ inr (acc ++ new)
unfolding load_coordinators
load_coordinators_complete i [] acc full = ap inr (sym (append-nil acc))
load_coordinators_complete i ([] ∷ new) acc full = absurd (full.0 refl)
load_coordinators_complete i ((x ∷ u) ∷ new) acc full =
    load_coordinators_complete (suc i) new (acc ++ (x ∷ u) ∷ []) full.1
    ∙ ap inr (append_assoc acc ((x ∷ u) ∷ []) new)

-- The writes of a list of entries into a map, in turn.
insert_all : Map Bytes → Map Bytes → Map Bytes
insert_all [] acc = acc
insert_all ((k, a) ∷ s) acc = insert_all s (insert k a acc)

load_services_sound :
    (m : Fields) (acc s : Map Bytes)
    → load_services m acc ≡ inr s
    → ((new : Map Bytes) × (m ≡ services_value new)
        × All (λ e. e.1 ≢ []) new
        × (s ≡ insert_all new acc))
unfolding load_services insert_all
load_services_sound no_fields acc s h = ([], refl, tt, ground (arith, h))
load_services_sound (field k (text (x ∷ a)) m) acc s h =
    let (new, e, full, same) = load_services_sound m (insert k (x ∷ a) acc) s h in
    ((k, x ∷ a) ∷ new, ap (field k (text (x ∷ a))) e, ((λ z. cc), full), same)
load_services_sound (field k (text []) m) acc s h = cc
load_services_sound (field k Value.null m) acc s h = cc
load_services_sound (field k (Value.boolean b) m) acc s h = cc
load_services_sound (field k (Value.number n) m) acc s h = cc
load_services_sound (field k (array ws) m) acc s h = cc
load_services_sound (field k (object o) m) acc s h = cc

load_services_complete :
    (new acc : Map Bytes)
    → All (λ e. e.1 ≢ []) new
    → load_services (services_value new) acc ≡ inr (insert_all new acc)
unfolding load_services insert_all
load_services_complete [] acc full = refl
load_services_complete ((k, []) ∷ new) acc full = absurd (full.0 refl)
load_services_complete ((k, x ∷ a) ∷ new) acc full =
    load_services_complete new (insert k (x ∷ a) acc) full.1

lookup-append_none :
    (acc : Map Bytes) (j k a : Bytes) (s : Map Bytes)
    → lookup j (acc ++ (k, a) ∷ s) ≡ none
    → bytes_eq j k ≡ false
unfolding lookup
lookup-append_none [] j k a s h = ground (arith, bytes_eq_iff k j, bytes_eq_iff j k)
lookup-append_none ((i, b) ∷ acc) j k a s h = ground (arith, lookup-append_none acc j k a s)

Distinct-middle :
    (acc : Map Bytes) (k a : Bytes) (s : Map Bytes)
    → Distinct (acc ++ (k, a) ∷ s)
    → insert k a acc ≡ acc ++ (k, a) ∷ []
unfolding insert lookup
Distinct-middle [] k a s d = refl
Distinct-middle ((j, b) ∷ acc) k a s d =
    ground (arith, lookup-append_none acc j k a s d.0, Distinct-middle acc k a s d.1)

-- Writing distinct entries into an empty map gives just them.
insert_all-Distinct : (s acc : Map Bytes) → Distinct (acc ++ s) → insert_all s acc ≡ acc ++ s
unfolding insert_all
insert_all-Distinct [] acc d = sym (append-nil acc)
insert_all-Distinct ((k, a) ∷ s) acc d =
    let add = Distinct-middle acc k a s d in
    let shift = append_assoc acc ((k, a) ∷ []) s in
    rw add (insert_all-Distinct s (acc ++ (k, a) ∷ []) (subst Distinct (sym shift) d) ∙ shift)

lookup-field_list :
    (k : Bytes) (s : Map Bytes)
    → lookup k (field_list (services_value s)) ≡ none
    → lookup k s ≡ none
unfolding lookup
lookup-field_list k [] h = refl
lookup-field_list k ((j, a) ∷ s) h = ground (arith, lookup-field_list k s)

pub Distinct-field_list : (s : Map Bytes) → Distinct (field_list (services_value s)) → Distinct s
Distinct-field_list [] d = tt
Distinct-field_list ((k, a) ∷ s) d = (lookup-field_list k s d.0, Distinct-field_list s d.1)

pub services_field_sound :
    (o : Option Value) (s : Map Bytes)
    → ((m : Fields) → o ≡ some (object m) → Distinct (field_list m))
    → services_field o ≡ inr s
    → ((o ≡ some (object (services_value s))) ⊎ ((o ≡ none) × (s ≡ []))) × All (λ e. e.1 ≢ []) s
unfolding services_field
services_field_sound none s d h = ground (arith, h)
services_field_sound (some (object m)) s d h =
    let (new, e, full, same) = load_services_sound m [] s h in
    let plain =
      same
      ∙ insert_all-Distinct new []
          (Distinct-field_list new (subst (λ x. Distinct (field_list x)) e (d m refl))) in
    (
      inl (ap (λ x. some (object x)) (e ∙ ap services_value (sym plain))),
      subst (All (λ e. e.1 ≢ [])) (sym plain) full,
    )
services_field_sound (some (text t)) s d h = cc
services_field_sound (some Value.null) s d h = cc
services_field_sound (some (Value.boolean b)) s d h = cc
services_field_sound (some (Value.number n)) s d h = cc
services_field_sound (some (array ws)) s d h = cc

pub services_field_complete :
    (s : Map Bytes)
    → Distinct s
    → All (λ e. e.1 ≢ []) s
    → services_field (some (object (services_value s))) ≡ inr s
unfolding services_field
services_field_complete s d full =
    load_services_complete s [] full ∙ ap inr (insert_all-Distinct s [] d)

pub coordinators_field_sound :
    (o : Option Value) (us : List Bytes)
    → coordinators_field o ≡ inr us
    → (o ≡ some (array (coordinators_value us))) × (us ≢ []) × All (λ u. u ≢ []) us
unfolding coordinators_field
coordinators_field_sound none us h = cc
coordinators_field_sound (some (array vs)) us h = elim (Sum-cases (load_coordinators 0 vs [])) [
  | inl (e, l) ↦ absurd (ground (arith, l, h))
  | inr ([], l) ↦ absurd (ground (arith, l, h))
  | inr (x ∷ xs, l) ↦
      let (new, e, full, same) = load_coordinators_sound 0 vs [] (x ∷ xs) l in
      let is = rw (coordinators_field, l) at h in
      let here = sym same ∙ inr_injective is in
      (
        ap (λ v. some (array v)) (e ∙ ap coordinators_value here),
        (λ z. cc),
        subst (All (λ u. u ≢ [])) here full,
      )
]
coordinators_field_sound (some (text t)) us h = cc
coordinators_field_sound (some Value.null) us h = cc
coordinators_field_sound (some (Value.boolean b)) us h = cc
coordinators_field_sound (some (Value.number n)) us h = cc
coordinators_field_sound (some (object ws)) us h = cc

pub coordinators_field_complete :
    (us : List Bytes)
    → us ≢ []
    → All (λ u. u ≢ []) us
    → coordinators_field (some (array (coordinators_value us))) ≡ inr us
unfolding coordinators_field
coordinators_field_complete [] some_url full = absurd (some_url refl)
coordinators_field_complete (x ∷ us) some_url full =
    rw (load_coordinators_complete 0 (x ∷ us) [] full) refl

pub key_text_iff :
    (f : Formats) (k priv : Bytes)
    → (key_field f (some (text k)) ≡ inr priv)
      ↔ ((f.decode_base64 k ≡ some priv) × (length priv ≡ 64))
unfolding key_field
key_text_iff f k priv = elim (Option-cases (f.decode_base64 k)) [
  | inl e ↦ ground (arith, e)
  | inr (p, e) ↦ ground (arith, e)
]

pub key_field-text :
    (f : Formats) (o : Option Value) (priv : Bytes)
    → key_field f o ≡ inr priv
    → ((k : Bytes) × (o ≡ some (text k)))
unfolding key_field
key_field-text f (some (text k)) priv h = (k, refl)
key_field-text f none priv h = cc
key_field-text f (some Value.null) priv h = cc
key_field-text f (some (Value.boolean b)) priv h = cc
key_field-text f (some (Value.number n)) priv h = cc
key_field-text f (some (array ws)) priv h = cc
key_field-text f (some (object ws)) priv h = cc
