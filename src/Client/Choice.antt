-- ===== src/Client/Choice.antt =====
-- The client's choice of a node from what the coordinator's /services answers.
use rtc_bridge.Prelude.{
  Bytes, List, List-cases, Map, [], bytes_eq_refl, codes, inl, inr, lookup, refl, some,
  sort_strings, ◌∷◌, ◌≡◌,
}
use rtc_bridge.Wire.{Codec}
use rtc_bridge.Coordinator.State.{Coordinator}
use rtc_bridge.Coordinator.Relay.{Request}
use rtc_bridge.Coordinator.Listing.{entries, services_of, handle_services}
use rtc_bridge.Coordinator.Listing.Services.{offering, entry_of, sorted_entry, lookup-services_of}
use rtc_bridge.Client.{Outcome, goes_on, exits, Web, first_node, resolve}

-- The first of a list.
abbrev pub first_of : List Bytes → Outcome Bytes
first_of [] = exits
first_of (id ∷ ids) = goes_on id

module _ {Sdp : Type 0} (w : Web Sdp) where
  first_node-sorted_entry :
      (svc : Bytes) (svc_map : Map (List Bytes)) (l : List Bytes)
      → lookup svc svc_map ≡ sorted_entry (entry_of l)
      → first_node w svc svc_map ≡ first_of (sort_strings l)
  unfolding first_node sort_strings
  first_node-sorted_entry svc svc_map [] e = rw (first_node, e) refl
  first_node-sorted_entry svc svc_map (x ∷ l) e = elim (List-cases (sort_strings (x ∷ l))) [
    | inl none_left ↦ rw (first_node, e, none_left) refl
    | inr (y, sorted) ↦ rw (first_node, e, sorted) refl
  ]

  -- When the coordinator answers the request for /services, and the JSON of that map comes back: a
  -- client that names no node chooses the first in order of the ids of the registered nodes that offer
  -- the service, and exits if none does.
  pub resolve-handle_services :
      (j : Codec) (r : Request) (c : Coordinator) (svc : Bytes)
      → r.method ≡ codes "GET"
      → w.get_services ≡ some (handle_services j r c)
      → w.decode_services (j.encode_services (services_of (entries c.heap c.nodes)))
        ≡ some (services_of (entries c.heap c.nodes))
      → resolve w svc [] ≡ first_of (sort_strings (offering svc (entries c.heap c.nodes)))
  unfolding resolve handle_services
  resolve-handle_services j r c svc get answered decoded =
      let es = entries c.heap c.nodes in
      rw (resolve, answered, handle_services, get, bytes_eq_refl (codes "GET"), decoded)
        (first_node-sorted_entry svc (services_of es) (offering svc es) (lookup-services_of svc es))
