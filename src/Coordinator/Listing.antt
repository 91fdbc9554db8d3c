-- ===== src/Coordinator/Listing.antt =====
-- coordinator/main.go: `handleNodes`, `handleServices` and `corsMiddleware`.
pub mod Services
pub mod Directory
mod Tests
use rtc_bridge.Prelude.{
  Bytes, List, Map, Option, [], bytes_eq, codes, if◌then◌else◌, insert, lookup, map, none, not,
  some, sort_strings, ℕ, ◌++◌, ◌∷◌,
}
use rtc_bridge.Wire.{Codec, NodeInfo}
use rtc_bridge.Coordinator.State.{Node, Coordinator}
use rtc_bridge.Coordinator.Relay.{Request, Response, http_error}

-- The entries of `c.nodes`, in the order of the iteration, with the nodes behind the pointers.
unfoldable pub entries : (ℕ → Option Node) → Map ℕ → List (Bytes × Node)
entries heap [] = []
entries heap ((id, p) ∷ m) = elim (heap p) [
  | none ↦ entries heap m
  | some n ↦ (id, n) ∷ entries heap m
]

abbrev pub node_info : Bytes × Node → NodeInfo
node_info (id, n) = record { node_id = n.id; services = n.services }

-- `handleNodes`.
unfoldable pub handle_nodes : Codec → Request → Coordinator → Response
unfolding entries
handle_nodes j r c =
    if not (bytes_eq r.method (codes "GET"))
    then http_error (codes "GET only") 405
    else record { status = 200; body = j.encode_nodes (map node_info (entries c.heap c.nodes)) }

abbrev pub ids_or_nil : Option (List Bytes) → List Bytes
ids_or_nil none = []
ids_or_nil (some ids) = ids

-- `svcMap[svc] = append(svcMap[svc], id)`.
unfoldable pub append_id : Bytes → Bytes → Map (List Bytes) → Map (List Bytes)
append_id id svc svc_map = insert svc (ids_or_nil (lookup svc svc_map) ++ id ∷ []) svc_map

-- The inner loop, over the services of one node.
unfoldable pub append_services : Bytes → List Bytes → Map (List Bytes) → Map (List Bytes)
unfolding append_id
append_services id [] svc_map = svc_map
append_services id (svc ∷ services) svc_map = append_services id services (append_id id svc svc_map)

-- The outer loop, over the nodes.
unfoldable pub service_map : List (Bytes × Node) → Map (List Bytes) → Map (List Bytes)
unfolding append_services
service_map [] svc_map = svc_map
service_map ((id, n) ∷ es) svc_map = service_map es (append_services id n.services svc_map)

-- `for _, ids := range svcMap { sort.Strings(ids) }`.
unfoldable pub sort_values : Map (List Bytes) → Map (List Bytes)
sort_values [] = []
sort_values ((svc, ids) ∷ m) = (svc, sort_strings ids) ∷ sort_values m

-- The map that `handleServices` encodes.
unfoldable pub services_of : List (Bytes × Node) → Map (List Bytes)
unfolding service_map sort_values
services_of es = sort_values (service_map es [])

-- `handleServices`.
unfoldable pub handle_services : Codec → Request → Coordinator → Response
unfolding services_of entries
handle_services j r c =
    if not (bytes_eq r.method (codes "GET"))
    then http_error (codes "GET only") 405
    else record { status = 200; body = j.encode_services (services_of (entries c.heap c.nodes)) }

-- The headers that `corsMiddleware` sets.
abbrev pub cors_headers : List (Bytes × Bytes)
cors_headers =
    (codes "Access-Control-Allow-Origin", codes "*")
    ∷ (codes "Access-Control-Allow-Methods", codes "GET, POST, OPTIONS")
    ∷ (codes "Access-Control-Allow-Headers", codes "Content-Type")
    ∷ []

-- `corsMiddleware`: the headers, and what is served, by the handler `next` or by itself.
unfoldable pub cors_middleware :
    {A : Type 0} → (Response → A) → (Request → A) → Request → List (Bytes × Bytes) × A
cors_middleware written next r = (
  cors_headers,
  if bytes_eq r.method (codes "OPTIONS")
      then written (record { status = 204; body = [] })
      else next r,
)
