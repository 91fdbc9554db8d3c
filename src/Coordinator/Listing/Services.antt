-- ===== src/Coordinator/Listing/Services.antt =====
-- What /services lists.
use rtc_bridge.Prelude.{
  Bool-cases, Bytes, List, Map, Option, [], ap, append-nil, append_assoc, arith, bytes_eq,
  bytes_eq_iff, if◌then◌else◌, inl, inr, lookup, lookup-insert, none, perm-sort_strings, refl, some,
  sort_strings, sym, ◌++◌, ◌∙◌, ◌∷◌, ◌≡◌,
}
use mathlib.Core.List.{Perm, Permᴰ, Perm-prop, perm_append_comm}
use mathlib.Core.Logic.{∥∥₁_elim}
use mathlib.Core.List.Perm
use rtc_bridge.Coordinator.State.{Node}
use rtc_bridge.Coordinator.Listing.{
  ids_or_nil, append_id, append_services, service_map, sort_values, services_of,
}

-- The id, once for each time that the service stands in the list.
abbrev pub times_offered : Bytes → Bytes → List Bytes → List Bytes
times_offered svc id [] = []
times_offered svc id (x ∷ services) =
    if bytes_eq x svc then id ∷ times_offered svc id services else times_offered svc id services

-- The ids of the nodes that offer a service, in the order of the nodes.
abbrev pub offering : Bytes → List (Bytes × Node) → List Bytes
offering svc [] = []
offering svc ((id, n) ∷ es) = times_offered svc id n.services ++ offering svc es

-- The entry of a service: none if no node offers it.
abbrev pub entry_of : List Bytes → Option (List Bytes)
entry_of [] = none
entry_of (x ∷ xs) = some (x ∷ xs)

abbrev pub sorted_entry : Option (List Bytes) → Option (List Bytes)
sorted_entry none = none
sorted_entry (some ids) = some (sort_strings ids)

abbrev joined : Option (List Bytes) → List Bytes → Option (List Bytes)
joined o [] = o
joined o (x ∷ xs) = some (ids_or_nil o ++ x ∷ xs)

joined-append :
    (o : Option (List Bytes)) (xs ys : List Bytes) → joined (joined o xs) ys ≡ joined o (xs ++ ys)
joined-append o [] ys = refl
joined-append o (x ∷ xs) [] = rw append-nil
joined-append o (x ∷ xs) (y ∷ ys) = rw append_assoc

lookup-append_services :
    (svc id : Bytes) (services : List Bytes) (m : Map (List Bytes))
    → lookup svc (append_services id services m)
      ≡ joined (lookup svc m) (times_offered svc id services)
unfolding append_services append_id
lookup-append_services svc id [] m = refl
lookup-append_services svc id (x ∷ services) m =
    lookup-append_services svc id services (append_id id x m) ∙ elim (Bool-cases (bytes_eq x svc)) [
      | inl same ↦
          let e = (bytes_eq_iff x svc).0 same in
          rw (same, lookup-insert x svc (ids_or_nil (lookup x m) ++ id ∷ []) m, same, e)
            (joined-append (lookup svc m) (id ∷ []) (times_offered svc id services))
      | inr other ↦
          rw (other, lookup-insert x svc (ids_or_nil (lookup x m) ++ id ∷ []) m, other) refl
    ]

lookup-service_map :
    (svc : Bytes) (es : List (Bytes × Node)) (m : Map (List Bytes))
    → lookup svc (service_map es m) ≡ joined (lookup svc m) (offering svc es)
unfolding service_map
lookup-service_map svc [] m = refl
lookup-service_map svc ((id, n) ∷ es) m =
    lookup-service_map svc es (append_services id n.services m)
    ∙ ap (λ o. joined o (offering svc es)) (lookup-append_services svc id n.services m)
    ∙ joined-append (lookup svc m) (times_offered svc id n.services) (offering svc es)

lookup-sort_values :
    (svc : Bytes) (m : Map (List Bytes)) → lookup svc (sort_values m) ≡ sorted_entry (lookup svc m)
unfolding sort_values lookup
lookup-sort_values svc [] = refl
lookup-sort_values svc ((k, ids) ∷ m) = ground (arith, lookup-sort_values svc m)

sorted_entry-joined : (l : List Bytes) → sorted_entry (joined none l) ≡ sorted_entry (entry_of l)
sorted_entry-joined [] = refl
sorted_entry-joined (x ∷ l) = refl

-- /services has an entry for a service exactly if a node offers it, and the entry is the sorted list
-- of the ids of the nodes that do, an id as often as its node names the service.
pub lookup-services_of :
    (svc : Bytes) (es : List (Bytes × Node))
    → lookup svc (services_of es) ≡ sorted_entry (entry_of (offering svc es))
unfolding services_of lookup
lookup-services_of svc es =
    lookup-sort_values svc (service_map es [])
    ∙ ap sorted_entry (lookup-service_map svc es [])
    ∙ sorted_entry-joined (offering svc es)

offering-perm :
    (svc : Bytes) {es fs : List (Bytes × Node)}
    → Permᴰ es fs
    → Perm (offering svc es) (offering svc fs)
offering-perm svc Permᴰ.nil = Perm.refl []
offering-perm svc (Permᴰ.cons {b} {l₁} e p) =
    rw e (Perm.append_left (times_offered svc b.0 b.1.services) (offering-perm svc p))
offering-perm svc (Permᴰ.swap {a} {b} {l} e f) =
    rw (← e, ← f, ← append_assoc, ← append_assoc)
      (Perm.append_right (offering svc l) (
        perm_append_comm (times_offered svc a.0 a.1.services) (times_offered svc b.0 b.1.services)))
offering-perm svc (Permᴰ.trans p q) = Perm.trans (offering-perm svc p) (offering-perm svc q)

sorted_entry-perm :
    (l m : List Bytes) → Perm l m → sorted_entry (entry_of l) ≡ sorted_entry (entry_of m)
sorted_entry-perm [] [] p = refl
sorted_entry-perm [] (y ∷ m) p = cc (Perm.nil-eq p)
sorted_entry-perm (x ∷ l) [] p = cc (Perm.eq-nil p)
sorted_entry-perm (x ∷ l) (y ∷ m) p = ap some (perm-sort_strings p)

-- /services does not depend on the order in which the map of the nodes is iterated.
pub services_of-perm :
    (svc : Bytes) {es fs : List (Bytes × Node)}
    → Perm es fs
    → lookup svc (services_of es) ≡ lookup svc (services_of fs)
services_of-perm svc {es} {fs} p =
    lookup-services_of svc es
    ∙ sorted_entry-perm (offering svc es) (offering svc fs)
        (∥∥₁_elim p Perm-prop (offering-perm svc))
    ∙ sym (lookup-services_of svc fs)
