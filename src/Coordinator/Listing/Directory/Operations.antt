-- ===== src/Coordinator/Listing/Directory/Operations.antt =====
-- What the operations of the registry do to the map of the nodes.
use rtc_bridge.Prelude.{
  Bool, Bytes, Distinct, Distinct-delete, Distinct-insert, Map, Option, Option-cases, [], ap, arith,
  delete, if_cases, inl, inr, insert, keep, leb, lookup, lookup-delete, lookup-insert,
  lookup-keep_entries, none, passed, put, put_comm, refl, remove, some, sym, update, ℕ, ◌+◌, ◌∙◌,
  ◌∷◌, ◌≡◌, ◌≢◌,
}
use mathlib.Core.Quot
use rtc_bridge.Protocol.Messages.{RegisterMsg}
use rtc_bridge.Coordinator.State.{Node, Coordinator, node_drop_after}
use rtc_bridge.Coordinator.Registry.{
  new_node, accept_node, end_node, is_stale, prune_entry, prune_entries, prune,
}
use rtc_bridge.Coordinator.Registry.Lookup.{lookup-accept_node, lookup-prune, kept, heap-prune}
use rtc_bridge.Coordinator.Listing.{entries, services_of}
use rtc_bridge.Coordinator.Listing.Directory.{
  behind, entries-Distinct, lookup-entries, directory, offered,
}

-- A node that was seen in the last three minutes.
abbrev pub is_recent : ℕ → Node → Bool
is_recent now n = leb now (n.last_seen + node_drop_after)

pub accept_node-Distinct :
    (p : ℕ) (reg : RegisterMsg) (now : ℕ) (c : Coordinator)
    → Distinct c.nodes
    → Distinct (accept_node p reg now c).nodes
unfolding accept_node
accept_node-Distinct p reg now c d = Distinct-insert reg.node_id p c.nodes d

pub end_node-Distinct :
    (p : ℕ) (n : Node) (c : Coordinator) → Distinct c.nodes → Distinct (end_node p n c).nodes
unfolding end_node
end_node-Distinct p n c d = Distinct-delete n.id c.nodes d

prune_entries-Distinct :
    (now : ℕ) (m : Map ℕ) (c : Coordinator)
    → Distinct c.nodes
    → Distinct (prune_entries now m c).nodes
unfolding prune_entries prune_entry
prune_entries-Distinct now [] c d = d
prune_entries-Distinct now ((id, p) ∷ m) c d =
    prune_entries-Distinct now m (prune_entry now id p c) (
      if_cases (λ (c' : Coordinator). Distinct c'.nodes) (is_stale now (c.heap p))
        (λ _. Distinct-delete id c.nodes d) (λ _. d))

pub prune-Distinct : (now : ℕ) (c : Coordinator) → Distinct c.nodes → Distinct (prune now c).nodes
unfolding prune
prune-Distinct now c d = prune_entries-Distinct now c.nodes c d

behind-kept :
    (now : ℕ) (heap : ℕ → Option Node) (p : ℕ) (o : Option Node)
    → heap p ≡ o
    → behind heap (kept now p o) ≡ passed (is_recent now) o
behind-kept now heap p none e = e
behind-kept now heap p (some n) e = ground (arith, e)

module _ (c : Coordinator) (d : Distinct c.nodes) where
  directory-accept_node :
      (p : ℕ) (reg : RegisterMsg) (now : ℕ)
      → ((id : Bytes) → lookup id c.nodes ≢ some p)
      → directory (accept_node p reg now c) (accept_node-Distinct p reg now c d)
        ≡ put reg.node_id (new_node reg now) (directory c d)
  unfolding directory put accept_node
  directory-accept_node p reg now fresh = Quot.sound λ id.
      lookup-entries (update c.heap p (some (new_node reg now))) id (insert reg.node_id p c.nodes)
        (Distinct-insert reg.node_id p c.nodes d)
      ∙ rw
          (
            lookup-insert reg.node_id id p c.nodes,
            lookup-insert reg.node_id id (new_node reg now) (entries c.heap c.nodes),
            lookup-entries c.heap id c.nodes d,
          )
          (elim (Option-cases (lookup id c.nodes)) [
            | inl e ↦ rw e (ground arith)
            | inr (q, e) ↦
                let other : p ≢ q = λ same. fresh id (e ∙ ap some (sym same)) in
                rw e (ground (arith, other))
          ])

  directory-end_node :
      (p : ℕ) (n : Node)
      → directory (end_node p n c) (end_node-Distinct p n c d) ≡ remove n.id (directory c d)
  unfolding directory remove end_node
  directory-end_node p n = Quot.sound λ id.
      lookup-entries c.heap id (delete n.id c.nodes) (Distinct-delete n.id c.nodes d)
      ∙ rw
          (
            lookup-delete n.id id c.nodes,
            lookup-delete n.id id (entries c.heap c.nodes),
            lookup-entries c.heap id c.nodes d,
          )
          (ground arith)

  directory-prune :
      (now : ℕ)
      → directory (prune now c) (prune-Distinct now c d) ≡ keep (is_recent now) (directory c d)
  unfolding directory keep
  directory-prune now = Quot.sound λ id.
      lookup-entries (prune now c).heap id (prune now c).nodes (prune-Distinct now c d)
      ∙ rw
          (
            (heap-prune now c).0,
            lookup-prune now c id d,
            lookup-keep_entries (is_recent now) id (entries c.heap c.nodes)
                (entries-Distinct c.heap c.nodes d),
            lookup-entries c.heap id c.nodes d,
          )
          (elim (Option-cases (lookup id c.nodes)) [
            | inl e ↦ rw e refl
            | inr (q, e) ↦ rw e (behind-kept now c.heap q (c.heap q) refl)
          ])

-- The registry is a finite map from ids to nodes, in which the order of registration does not count:
-- accepting a node behind a new pointer puts it under its id, the end of a node's handler removes the
-- node's id, and a round of pruning keeps exactly the nodes that were seen in the last three minutes.
-- What /services says of a service is a function of that map.
pub directory-registry :
    (p q now : ℕ) (reg : RegisterMsg) (n : Node) (svc : Bytes) (c : Coordinator)
    (d : Distinct c.nodes)
    → ((id : Bytes) → lookup id c.nodes ≢ some p)
    → (directory (accept_node p reg now c) (accept_node-Distinct p reg now c d)
        ≡ put reg.node_id (new_node reg now) (directory c d))
      × (directory (end_node q n c) (end_node-Distinct q n c d) ≡ remove n.id (directory c d))
      × (directory (prune now c) (prune-Distinct now c d) ≡ keep (is_recent now) (directory c d))
      × (lookup svc (services_of (entries c.heap c.nodes)) ≡ offered svc (directory c d))
unfolding offered directory
directory-registry p q now reg n svc c d fresh = (
  directory-accept_node c d p reg now fresh,
  directory-end_node c d q n,
  directory-prune c d now,
  refl,
)

still_fresh :
    (p q s : ℕ) (a : RegisterMsg) (c : Coordinator) (id : Bytes)
    → p ≢ q
    → lookup id c.nodes ≢ some q
    → lookup id (accept_node p a s c).nodes ≢ some q
still_fresh p q s a c id pointers fresh e =
    ground (arith, pointers, fresh, e, lookup-accept_node p a s c id)

-- Two nodes with different ids may register in either order: the registry is the same, and so is what
-- /services says.
directory-accept_node_comm :
    (p q s t : ℕ) (a b : RegisterMsg) (c : Coordinator) (d : Distinct c.nodes)
    → a.node_id ≢ b.node_id
    → p ≢ q
    → ((id : Bytes) → (lookup id c.nodes ≢ some p) × (lookup id c.nodes ≢ some q))
    → directory
        (accept_node q b t (accept_node p a s c))
        (accept_node-Distinct q b t (accept_node p a s c) (accept_node-Distinct p a s c d))
      ≡ directory
          (accept_node p a s (accept_node q b t c))
          (accept_node-Distinct p a s (accept_node q b t c) (accept_node-Distinct q b t c d))
directory-accept_node_comm p q s t a b c d ids pointers fresh =
    let one = accept_node-Distinct p a s c d in
    let two = accept_node-Distinct q b t c d in
    directory-accept_node (accept_node p a s c) one q b t
      (λ id. still_fresh p q s a c id pointers (fresh id).1)
    ∙ ap (put b.node_id (new_node b t)) (directory-accept_node c d p a s (λ id. (fresh id).0))
    ∙ put_comm b.node_id a.node_id (new_node b t) (new_node a s) (directory c d) (λ e. ids (sym e))
    ∙ ap (put a.node_id (new_node a s)) (sym (directory-accept_node c d q b t (λ id. (fresh id).1)))
    ∙ sym (
        directory-accept_node (accept_node q b t c) two p a s
          (λ id. still_fresh q p t b c id (λ e. pointers (sym e)) (fresh id).0))
