-- ===== src/Coordinator/Tests.antt =====
-- The theorems of the coordinator at concrete values.
use rtc_bridge.Prelude.{
  Bytes, List, [], arith, bytes_eq, codes, le_str, lookup, none, refl, replicate, some,
  sort_strings, true, ◌↔◌, ◌∷◌, ◌≡◌,
}
use rtc_bridge.Protocol.NodeId.{node_id, text}
use rtc_bridge.Protocol.Registration.{
  verify_hello, verify_registration, xor32, xor_bytes, sign_payload,
}
use rtc_bridge.Coordinator.Handshake.{accepted, handshake}
use rtc_bridge.Coordinator.Handshake.Acceptance.{
  IsAccepted, handshake_iff, handshake_ignores_node_id,
}
use rtc_bridge.Coordinator.State.{Node, Coordinator, new_coordinator}
use rtc_bridge.Coordinator.Registry.{new_node, accept_node, end_node}
use rtc_bridge.Coordinator.Registry.Lookup.{end_node-reconnected}
use rtc_bridge.Coordinator.Listing.{services_of}
use rtc_bridge.Coordinator.Listing.Services.{lookup-services_of}
use rtc_bridge.Samples.{toy, toy-IsDigest, r_coord, reg, lettered}

abbrev quote : Bytes → Bytes
quote s = s

-- The id of the key in the sample messages.
abbrev own_id : Bytes
own_id = node_id toy (replicate 32 7)

handshake_iff_example :
    (handshake toy lettered (some own_id) (some r_coord) true (some (codes "n1"))
      ≡ some (accepted reg))
    ↔ IsAccepted toy lettered (some own_id) (some r_coord) (some (codes "n1")) reg
handshake_iff_example =
    handshake_iff toy-IsDigest lettered (some own_id) (some r_coord) (some (codes "n1")) reg

sample_accepted :
    handshake toy lettered (some own_id) (some r_coord) true (some (codes "n1"))
    ≡ some (accepted reg)
unfolding handshake verify_hello verify_registration node_id text xor_bytes xor32 sign_payload
    bytes_eq
sample_accepted = refl

handshake_ignores_node_id_example :
    handshake toy lettered (some own_id) (some r_coord) true (some (codes "victim"))
    ≡ some (accepted (record reg { node_id = codes "victim"; services = codes "echo" ∷ [] }))
handshake_ignores_node_id_example =
    handshake_ignores_node_id toy-IsDigest lettered (some own_id) (some r_coord) (some (codes "n1"))
      reg (codes "victim") (codes "victim") (codes "echo" ∷ []) sample_accepted refl

abbrev two_nodes : Coordinator
two_nodes =
    accept_node 1 (record reg { node_id = codes "n2" }) 9 (accept_node 0 reg 5 new_coordinator)

end_node-reconnected_example :
    lookup (codes "n1") (end_node 0 (new_node reg 5) (accept_node 1 reg 9 new_coordinator)).nodes
    ≡ none
unfolding new_node
end_node-reconnected_example =
    (end_node-reconnected 0 1 (new_node reg 5) reg 9 new_coordinator refl (omega arith)).1

abbrev offers : List (Bytes × Node)
offers =
    (codes "n2", new_node (record reg { node_id = codes "n2" }) 9)
    ∷ (codes "n1", new_node reg 5)
    ∷ []

lookup-services_of_example :
    lookup (codes "echo") (services_of offers) ≡ some (codes "n1" ∷ codes "n2" ∷ [])
unfolding new_node bytes_eq sort_strings le_str
lookup-services_of_example = lookup-services_of (codes "echo") offers
