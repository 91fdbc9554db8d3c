-- ===== src/Coordinator/Listing/Directory.antt =====
-- The registry as a map from ids to nodes without an order, and what /nodes and /services say of it.
pub mod Operations
use rtc_bridge.Prelude.{
  Bytes, Distinct, List, Map, Option, Option-cases, Unordered, [], arith, bytes_eq_iff, inl, inr,
  lookup, map, none, refl, same-perm, some, sym, unordered, ℕ, ◌∙◌, ◌∷◌, ◌≡◌,
}
use mathlib.Core.List.{Perm}
use mathlib.Core.List.Perm
use mathlib.Core.Quot
use rtc_bridge.Protocol.Messages.{RegisterMsg}
use rtc_bridge.Wire.{NodeInfo}
use rtc_bridge.Coordinator.State.{Node, Coordinator, node_drop_after}
use rtc_bridge.Coordinator.Registry.{
  new_node, accept_node, end_node, is_stale, prune_entry, prune_entries, prune,
}
use rtc_bridge.Coordinator.Registry.Lookup.{
  lookup-accept_node, lookup-prune, pruned, kept, heap-prune,
}
use rtc_bridge.Coordinator.Listing.{entries, node_info, services_of}
use rtc_bridge.Coordinator.Listing.Services.{services_of-perm}

-- The node that an id leads to.
abbrev pub behind : (ℕ → Option Node) → Option ℕ → Option Node
behind heap none = none
behind heap (some p) = heap p

abbrev pub node_of : Coordinator → Bytes → Option Node
node_of c id = behind c.heap (lookup id c.nodes)

entries-none :
    (heap : ℕ → Option Node) (id : Bytes) (m : Map ℕ)
    → lookup id m ≡ none
    → lookup id (entries heap m) ≡ none
unfolding entries lookup
entries-none heap id [] e = refl
entries-none heap id ((j, p) ∷ m) e = elim (Option-cases (heap p)) [
  | inl nil ↦ rw (entries, nil) (ground (arith, e, entries-none heap id m))
  | inr (n, is) ↦ rw (entries, is) (ground (arith, e, entries-none heap id m))
]

pub lookup-entries :
    (heap : ℕ → Option Node) (id : Bytes) (m : Map ℕ)
    → Distinct m
    → lookup id (entries heap m) ≡ behind heap (lookup id m)
unfolding entries lookup
lookup-entries heap id [] d = refl
lookup-entries heap id ((j, p) ∷ m) d = elim (Option-cases (heap p)) [
  | inl nil ↦
      rw (entries, nil)
        (ground (
          arith,
          nil,
          bytes_eq_iff j id,
          d.0,
          entries-none heap id m,
          lookup-entries heap id m d.1,
        ))
  | inr (n, is) ↦ rw (entries, is) (ground (arith, is, lookup-entries heap id m d.1))
]

pub entries-Distinct : (heap : ℕ → Option Node) (m : Map ℕ) → Distinct m → Distinct (entries heap m)
unfolding entries
entries-Distinct heap [] d = tt
entries-Distinct heap ((j, p) ∷ m) d = elim (Option-cases (heap p)) [
  | inl nil ↦ rw (entries, nil) (entries-Distinct heap m d.1)
  | inr (n, is) ↦ rw (entries, is) (entries-none heap j m d.0, entries-Distinct heap m d.1)
]

-- The lists of /nodes and the entries of /services depend only on the node that each id leads to:
-- where two coordinators agree in that, /nodes lists the same nodes, up to the order, and /services
-- has the same entry for each service.
pub listing-same :
    (b c : Coordinator)
    → Distinct b.nodes
    → Distinct c.nodes
    → ((id : Bytes) → node_of b id ≡ node_of c id)
    → Perm (map node_info (entries b.heap b.nodes)) (map node_info (entries c.heap c.nodes))
      × ((svc : Bytes)
          → lookup svc (services_of (entries b.heap b.nodes))
            ≡ lookup svc (services_of (entries c.heap c.nodes)))
listing-same b c d e same =
    let perm =
      same-perm (entries b.heap b.nodes) (entries c.heap c.nodes)
        (entries-Distinct b.heap b.nodes d) (entries-Distinct c.heap c.nodes e)
        λ id.
          lookup-entries b.heap id b.nodes d ∙ same id ∙ sym (lookup-entries c.heap id c.nodes e) in
    (Perm.map node_info perm, λ svc. services_of-perm svc perm)

-- The registry, with the order of its entries and the pointers forgotten.
unfoldable pub directory : (c : Coordinator) → Distinct c.nodes → Unordered Node
directory c d = unordered (entries c.heap c.nodes) (entries-Distinct c.heap c.nodes d)

-- What /services says of a service, for an unordered registry.
unfoldable pub offered : Bytes → Unordered Node → Option (List Bytes)
offered svc =
    Quot.lift (hlevel) (λ m. lookup svc (services_of m.0))
      λ m n same. services_of-perm svc (same-perm m.0 n.0 m.1 n.1 same)
