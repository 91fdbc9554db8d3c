-- ===== src/Coordinator/Registry.antt =====
-- coordinator/main.go: `registerNode`, `unregisterNode`, one round of `pruneLoop`, the ping handler
-- and the two ends of `handleNodeWS`.
pub mod Lookup
use rtc_bridge.Prelude.{
  Bool, Bytes, Map, Option, [], delete, false, if◌then◌else◌, insert, ltb, none, some, true, update,
  ℕ, ◌+◌, ◌-◌, ◌∷◌,
}
use rtc_bridge.Protocol.Messages.{RegisterMsg}
use rtc_bridge.Coordinator.State.{
  Node, Coordinator, pong_frame, node_drop_after, set_node, write_frame,
}

-- `registerNode` on the node behind `p`.
unfoldable register_node : ℕ → Node → Coordinator → Coordinator
register_node p n c = record c { nodes = insert n.id p c.nodes }

-- `unregisterNode`.
unfoldable unregister_node : Bytes → Coordinator → Coordinator
unregister_node id c = record c { nodes = delete id c.nodes }

-- The node object that `handleNodeWS` makes of an accepted register message. The deadline is that
-- of the read loop's first round.
unfoldable pub new_node : RegisterMsg → ℕ → Node
new_node reg now = record {
  id = reg.node_id;
  services = reg.services;
  last_seen = now;
  deadline = now + node_drop_after;
  pending = [];
}

-- The handler behind an accepted handshake, up to the first read of its loop; `p` is a new pointer.
unfoldable pub accept_node : ℕ → RegisterMsg → ℕ → Coordinator → Coordinator
unfolding register_node new_node
accept_node p reg now c =
    let n = new_node reg now in
    register_node p n
      (record c { heap = update c.heap p (some n); closed = update c.closed p false })

-- The deferred calls of the handler, when its loop has ended: `unregisterNode`, then `conn.Close`.
unfoldable pub end_node : ℕ → Node → Coordinator → Coordinator
unfolding unregister_node
end_node p n c = let c' = unregister_node n.id c in record c' { closed = update c'.closed p true }

-- The ping handler, which is run by the read loop of the node.
unfoldable pub handle_ping : ℕ → Node → Bytes → ℕ → Coordinator → Coordinator
handle_ping p n app_data now c =
    write_frame p (pong_frame app_data)
      (set_node p (record n { last_seen = now; deadline = now + node_drop_after }) c)

-- `n.lastSeen.Before(cutoff)`, for the cutoff at `now`.
abbrev pub is_stale : ℕ → Option Node → Bool
is_stale now none = false
is_stale now (some n) = ltb n.last_seen (now - node_drop_after)

-- The body of the loop over `c.nodes`.
unfoldable pub prune_entry : ℕ → Bytes → ℕ → Coordinator → Coordinator
prune_entry now id p c =
    if is_stale now (c.heap p)
    then record c { closed = update c.closed p true; nodes = delete id c.nodes }
    else c

unfoldable pub prune_entries : ℕ → Map ℕ → Coordinator → Coordinator
unfolding prune_entry
prune_entries now [] c = c
prune_entries now ((id, p) ∷ entries) c = prune_entries now entries (prune_entry now id p c)

-- One tick of `pruneLoop`.
unfoldable pub prune : ℕ → Coordinator → Coordinator
unfolding prune_entries
prune now c = prune_entries now c.nodes c
