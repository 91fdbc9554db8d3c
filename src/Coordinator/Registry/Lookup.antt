-- ===== src/Coordinator/Registry/Lookup.antt =====
-- Which node an id leads to, after each operation of the registry.
use rtc_bridge.Prelude.{
  Bool, Bool-cases, Bytes, Distinct, Map, Option, Option-cases, [], arith, bytes_eq, bytes_eq_iff,
  bytes_eq_refl, delete, false, if◌then◌else◌, inl, inr, insert, lookup, lookup-delete,
  lookup-insert, ltb, none, refl, some, true, update, ℕ, ◌&&◌, ◌+◌, ◌∷◌, ◌≡◌, ◌≢◌, ◌≤◌,
}
use rtc_bridge.Protocol.Messages.{RegisterMsg}
use rtc_bridge.Coordinator.State.{Node, Coordinator, node_drop_after}
use rtc_bridge.Coordinator.Registry.{
  accept_node, end_node, is_stale, prune_entry, prune_entries, prune, handle_ping,
}

-- After a node has been accepted its id leads to it, and every other id to where it led before.
pub lookup-accept_node :
    (p : ℕ) (reg : RegisterMsg) (now : ℕ) (c : Coordinator) (id : Bytes)
    → lookup id (accept_node p reg now c).nodes
      ≡ (if bytes_eq reg.node_id id then some p else lookup id c.nodes)
unfolding accept_node
lookup-accept_node p reg now c id = lookup-insert reg.node_id id p c.nodes

-- When the handler of a node ends, its id leads nowhere and every other id to where it led before.
-- This is so also where the id led to another node, which registered later under the same id.
lookup-end_node :
    (p : ℕ) (n : Node) (c : Coordinator) (id : Bytes)
    → lookup id (end_node p n c).nodes ≡ (if bytes_eq n.id id then none else lookup id c.nodes)
unfolding end_node
lookup-end_node p n c id = lookup-delete n.id id c.nodes

-- Where an entry leads after a round of pruning: nowhere, if more than three minutes have passed since
-- its node was last seen.
abbrev pub kept : ℕ → ℕ → Option Node → Option ℕ
kept now p none = some p
kept now p (some n) = if ltb (n.last_seen + node_drop_after) now then none else some p

abbrev pub pruned : ℕ → (ℕ → Option Node) → Option ℕ → Option ℕ
pruned now heap none = none
pruned now heap (some p) = kept now p (heap p)

kept-is_stale :
    (now p : ℕ) (o : Option Node) → kept now p o ≡ (if is_stale now o then none else some p)
kept-is_stale now p none = refl
kept-is_stale now p (some n) = ground arith

abbrev removes : ℕ → (ℕ → Option Node) → Option ℕ → Bool
removes now heap none = false
removes now heap (some p) = is_stale now (heap p)

heap-prune_entry :
    (now : ℕ) (id : Bytes) (p : ℕ) (c : Coordinator) → (prune_entry now id p c).heap ≡ c.heap
unfolding prune_entry
heap-prune_entry now id p c = ground arith

pub lookup-prune_entry :
    (now : ℕ) (i : Bytes) (p : ℕ) (c : Coordinator) (id : Bytes)
    → lookup id (prune_entry now i p c).nodes
      ≡ (if is_stale now (c.heap p) && bytes_eq i id then none else lookup id c.nodes)
unfolding prune_entry
lookup-prune_entry now i p c id = ground (arith, lookup-delete i id c.nodes)

lookup-prune_entries :
    (now : ℕ) (entries : Map ℕ) (c : Coordinator) (id : Bytes)
    → Distinct entries
    → lookup id (prune_entries now entries c).nodes
      ≡ (if removes now c.heap (lookup id entries) then none else lookup id c.nodes)
unfolding prune_entries lookup
lookup-prune_entries now [] c id h = refl
lookup-prune_entries now ((i, p) ∷ entries) c id h = ground (
  arith,
  lookup-prune_entries now entries (prune_entry now i p c) id h.1,
  heap-prune_entry now i p c,
  lookup-prune_entry now i p c id,
  bytes_eq_iff i id,
)

-- A round of pruning at `now` removes exactly the ids whose node was last seen before the cutoff:
-- after it such an id leads nowhere, and every other id leads where it led before.
pub lookup-prune :
    (now : ℕ) (c : Coordinator) (id : Bytes)
    → Distinct c.nodes
    → lookup id (prune now c).nodes ≡ pruned now c.heap (lookup id c.nodes)
unfolding prune
lookup-prune now c id h = elim (Option-cases (lookup id c.nodes)) [
  | inl e ↦ rw (lookup-prune_entries now c.nodes c id h, e)
  | inr (p, e) ↦
      rw (lookup-prune_entries now c.nodes c id h, e)
        (ground (arith, e, kept-is_stale now p (c.heap p)))
]

-- A registered node that has pinged keeps its registration in every round of pruning up to three
-- minutes later.
ping-prune :
    (p : ℕ) (n : Node) (app_data : Bytes) (seen now : ℕ) (c : Coordinator) (id : Bytes)
    → Distinct c.nodes
    → lookup id c.nodes ≡ some p
    → now ≤ seen + node_drop_after
    → lookup id (prune now (handle_ping p n app_data seen c)).nodes ≡ some p
unfolding handle_ping
ping-prune p n app_data seen now c id h found soon =
    rw (lookup-prune now (handle_ping p n app_data seen c) id h, found) (ground arith)

-- Pruning touches neither the node objects nor the channels.
heap-prune_entries :
    (now : ℕ) (entries : Map ℕ) (c : Coordinator)
    → ((prune_entries now entries c).heap ≡ c.heap)
      × ((prune_entries now entries c).buffers ≡ c.buffers)
unfolding prune_entries prune_entry
heap-prune_entries now [] c = (refl, refl)
heap-prune_entries now ((i, p) ∷ entries) c = elim (Bool-cases (is_stale now (c.heap p))) [
  | inl stale ↦
      rw (stale, prune_entries, prune_entry)
        (heap-prune_entries now entries
          (record c { closed = update c.closed p true; nodes = delete i c.nodes }))
  | inr live ↦ rw (live, prune_entries, prune_entry) (heap-prune_entries now entries c)
]

pub heap-prune :
    (now : ℕ) (c : Coordinator)
    → ((prune now c).heap ≡ c.heap) × ((prune now c).buffers ≡ c.buffers)
unfolding prune
heap-prune now c = heap-prune_entries now c.nodes c

-- A node that reconnects loses its registration when its older connection ends: if the node behind
-- `p` registered under the same id as a node that was accepted later behind `q`, then after the end
-- of the older handler the id leads nowhere, although the newer connection is open.
pub end_node-reconnected :
    (p q : ℕ) (n : Node) (reg : RegisterMsg) (now : ℕ) (c : Coordinator)
    → n.id ≡ reg.node_id
    → p ≢ q
    → (lookup reg.node_id (accept_node q reg now c).nodes ≡ some q)
      × (lookup reg.node_id (end_node p n (accept_node q reg now c)).nodes ≡ none)
      × ((end_node p n (accept_node q reg now c)).closed q ≡ false)
unfolding end_node accept_node
end_node-reconnected p q n reg now c same differ = (
  ground (arith, lookup-insert reg.node_id reg.node_id q c.nodes, bytes_eq_refl reg.node_id),
  ground (
    arith,
    lookup-delete n.id reg.node_id (insert reg.node_id q c.nodes),
    bytes_eq_iff n.id reg.node_id,
  ),
  ground arith,
)
