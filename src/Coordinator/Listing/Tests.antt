-- ===== src/Coordinator/Listing/Tests.antt =====
-- The theorems of the listings at concrete values.
use rtc_bridge.Prelude.{
  Bytes, Distinct, arith, bytes_eq, bytes_eq_iff, codes, false, insert, keep, lookup, map, refl,
  some, ◌*◌, ◌≡◌, ◌≢◌,
}
use mathlib.Core.List.{Perm}
use rtc_bridge.Protocol.Messages.{RegisterMsg}
use rtc_bridge.Coordinator.State.{Coordinator, new_coordinator, second}
use rtc_bridge.Coordinator.Registry.{new_node, accept_node, prune}
use rtc_bridge.Coordinator.Listing.{entries, node_info, services_of}
use rtc_bridge.Coordinator.Listing.Directory.{node_of, listing-same, directory}
use rtc_bridge.Coordinator.Listing.Directory.Operations.{
  is_recent, prune-Distinct, directory-registry,
}
use rtc_bridge.Samples.{reg}

abbrev second_reg : RegisterMsg
second_reg = record reg { node_id = codes "n2" }

-- The same two nodes, in either order.
abbrev n1_first : Coordinator
n1_first = accept_node 1 second_reg 9 (accept_node 0 reg 5 new_coordinator)

abbrev n2_first : Coordinator
n2_first = accept_node 0 reg 5 (accept_node 1 second_reg 9 new_coordinator)

n1_first-Distinct : Distinct n1_first.nodes
unfolding accept_node new_coordinator insert lookup bytes_eq
n1_first-Distinct = (refl, (refl, tt))

n2_first-Distinct : Distinct n2_first.nodes
unfolding accept_node new_coordinator insert lookup bytes_eq
n2_first-Distinct = (refl, (refl, tt))

differ : (bytes_eq (codes "n1") (codes "n2") ≡ false) × (bytes_eq (codes "n2") (codes "n1") ≡ false)
unfolding bytes_eq
differ = (refl, refl)

same_nodes : (id : Bytes) → node_of n1_first id ≡ node_of n2_first id
unfolding accept_node new_coordinator new_node insert lookup
same_nodes id = ground (arith, differ, bytes_eq_iff (codes "n1") id, bytes_eq_iff (codes "n2") id)

listing-same_example :
    Perm
      (map node_info (entries n1_first.heap n1_first.nodes))
      (map node_info (entries n2_first.heap n2_first.nodes))
    × ((svc : Bytes)
        → lookup svc (services_of (entries n1_first.heap n1_first.nodes))
          ≡ lookup svc (services_of (entries n2_first.heap n2_first.nodes)))
listing-same_example = listing-same n1_first n2_first n1_first-Distinct n2_first-Distinct same_nodes

third_new : (id : Bytes) → lookup id n1_first.nodes ≢ some 2
unfolding accept_node new_coordinator insert lookup
third_new id e = ground (arith, e)

directory-registry_example :
    directory
      (prune (200 * second) n1_first)
      (prune-Distinct (200 * second) n1_first n1_first-Distinct)
    ≡ keep (is_recent (200 * second)) (directory n1_first n1_first-Distinct)
directory-registry_example =
    (directory-registry 2 0 (200 * second) (record reg { node_id = codes "n3" }) (new_node reg 5)
      (codes "echo") n1_first n1_first-Distinct third_new).2
