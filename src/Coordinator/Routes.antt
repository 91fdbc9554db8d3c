-- ===== src/Coordinator/Routes.antt =====
-- coordinator/main.go: the routes that `cmdRun` sets up. `http.ServeMux` is a parameter.
mod Tests
use rtc_bridge.Prelude.{
  Bool, Bool-cases, Bytes, List, Map, Option, Option-cases, [], bytes_eq, bytes_eq_iff, codes,
  false, if◌then◌else◌, inl, inr, lookup, none, not, refl, some, true, ℕ, ◌&&◌, ◌==◌, ◌||◌, ◌∷◌,
  ◌≡◌,
}
use rtc_bridge.Wire.{Codec}
use rtc_bridge.Float.{Float}
use rtc_bridge.Coordinator.State.{Coordinator}
use rtc_bridge.Coordinator.Relay.{Request, Response, http_error}
use rtc_bridge.Coordinator.Listing.{handle_nodes, handle_services, cors_headers, cors_middleware}
use rtc_bridge.Coordinator.Landing.{handle_stats, Page, serve_static, handle_landing}

pub data Route : Type 0 where
  landing stats node_ws nodes services offer : Route
  static_file : Bytes → Bytes → Route

-- The calls of `mux.HandleFunc`.
abbrev pub routes : Map Route
routes =
    (codes "/", landing)
    ∷ (
      codes "/demo.html",
      static_file (codes "static/demo.html") (codes "text/html; charset=utf-8"),
    )
    ∷ (
      codes "/rtc-bridge.js",
      static_file (codes "static/rtc-bridge.js") (codes "application/javascript"),
    )
    ∷ (
      codes "/rtc-bridge.js.map",
      static_file (codes "static/rtc-bridge.js.map") (codes "application/json"),
    )
    ∷ (codes "/api/stats", stats)
    ∷ (codes "/ws", node_ws)
    ∷ (codes "/nodes", nodes)
    ∷ (codes "/services", services)
    ∷ (codes "/offer", offer)
    ∷ []

-- `find` gives the handler for a path, `none` where the mux answers itself, with a redirection to the
-- clean form of the path.
pub record Mux : Type 0 where
  pub find : Map Route → Bytes → Option Route
  pub is_clean : Bytes → Bool

-- A pattern for all paths that begin with it.
abbrev pub ends_in_slash : Bytes → Bool
ends_in_slash [] = false
ends_in_slash (c ∷ []) = c == b'/'
ends_in_slash (c ∷ d ∷ s) = ends_in_slash (d ∷ s)

abbrev pub only_root : Map Route → Bool
only_root [] = true
only_root ((pattern, r) ∷ m) =
    (not (ends_in_slash pattern) || bytes_eq pattern (codes "/")) && only_root m

-- What the package documents, for clean paths: a pattern that is the path goes first, and the pattern
-- "/" stands for every path that no other one fits.
pub record IsMux (mux : Mux) : Type 0 where
  pub exact :
      (m : Map Route) (path : Bytes) (r : Route)
      → mux.is_clean path ≡ true
      → lookup path m ≡ some r
      → mux.find m path ≡ some r
  pub root :
      (m : Map Route) (path : Bytes) (r : Route)
      → mux.is_clean path ≡ true
      → only_root m ≡ true
      → lookup path m ≡ none
      → lookup (codes "/") m ≡ some r
      → mux.find m path ≡ some r

root_route : lookup (codes "/") routes ≡ some landing
unfolding lookup bytes_eq
root_route = refl

no_route-root : (path : Bytes) → lookup path routes ≡ none → bytes_eq path (codes "/") ≡ false
no_route-root path e = elim (Bool-cases (bytes_eq path (codes "/"))) [
  | inl same ↦ cc (root_route, (bytes_eq_iff path (codes "/")).0 same, e)
  | inr other ↦ other
]

-- What a request gets: a page, a reply, a WebSocket or the relay of its offer, which are the module
-- `System`'s, or a redirection.
pub data Served : Type 0 where
  page : Page → Served
  reply : Response → Served
  websocket relayed redirected : Served

module _ {F : Type 0} (f : Float F) (j : Codec) (encode : ℕ → F → Bytes)
    (read_file : Bytes → Option Bytes) (landing_html : Bytes) (mux : Mux) where
  unfoldable pub respond : Route → Bytes → ℕ → Request → Coordinator → Served
  respond landing path now r c = page (handle_landing landing_html path)
  respond (static_file file content_type) path now r c =
      page (serve_static read_file file content_type)
  respond stats path now r c = reply (handle_stats f encode now r c)
  respond node_ws path now r c = websocket
  respond nodes path now r c = reply (handle_nodes j r c)
  respond services path now r c = reply (handle_services j r c)
  respond offer path now r c = relayed

  -- `mux.ServeHTTP`.
  unfoldable pub serve_mux : Bytes → ℕ → Coordinator → Request → Served
  unfolding respond
  serve_mux path now c r = elim (mux.find routes path) [
    | none ↦ redirected
    | some route ↦ respond route path now r c
  ]

  -- The handler of `http.ListenAndServe`.
  unfoldable pub serve : Bytes → ℕ → Coordinator → Request → List (Bytes × Bytes) × Served
  unfolding serve_mux
  serve path now c r = cors_middleware reply (serve_mux path now c) r

  -- What a route serves, or what is served where there is none.
  abbrev pub route_or_404 : Option Route → Bytes → ℕ → Request → Coordinator → Served
  route_or_404 none path now r c =
      page (record { content_type = []; response = http_error (codes "404 page not found") 404 })
  route_or_404 (some route) path now r c = respond route path now r c

  -- Every response has the headers that open the coordinator to all origins. A request with the method
  -- OPTIONS gets no more; any other request for a clean path gets what its route in the table serves,
  -- and the status 404 if there is none.
  pub serve-routes :
      IsMux mux
      → (path : Bytes) (now : ℕ) (c : Coordinator) (r : Request) → mux.is_clean path ≡ true
      → serve path now c r ≡ (
        cors_headers,
        if bytes_eq r.method (codes "OPTIONS")
            then reply (record { status = 204; body = [] })
            else route_or_404 (lookup path routes) path now r c,
      )
  unfolding serve serve_mux respond cors_middleware handle_landing bytes_eq
  serve-routes t path now c r clean = elim (Option-cases (lookup path routes)) [
    | inl e ↦
        rw
          (
            serve,
            cors_middleware,
            serve_mux,
            t.root routes path landing clean refl e root_route,
            respond,
            handle_landing,
            no_route-root path e,
            e,
          )
          refl
    | inr (route, e) ↦
        rw (serve, cors_middleware, serve_mux, t.exact routes path route clean e, e) refl
  ]
