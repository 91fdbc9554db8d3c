-- ===== src/Coordinator/Routes/Tests.antt =====
-- The routes at concrete paths.
use rtc_bridge.Prelude.{Map, Option, [], bytes_eq, codes, inl, lookup, none, refl, some, true, ◌≡◌}
use rtc_bridge.Samples.{lettered}
use rtc_bridge.Coordinator.State.{new_coordinator}
use rtc_bridge.Coordinator.Listing.{cors_middleware}
use rtc_bridge.Coordinator.Landing.Tests.{sudden, pair}
use rtc_bridge.Coordinator.Routes.{Route, Mux, IsMux, reply, relayed, serve, serve_mux, respond}

abbrev or_root : Map Route → Option Route → Option Route
or_root m none = lookup (codes "/") m
or_root m (some r) = some r

-- A mux for clean paths, as the theorem on the routes assumes it.
abbrev plain : Mux
plain = record { find = λ m path. or_root m (lookup path m); is_clean = λ path. true }

plain-IsMux : IsMux plain
plain-IsMux = record {
  exact = λ m path r clean e. rw e refl;
  root = λ m path r clean only e f. rw e f;
}

-- A preflight, and an offer.
preflight :
    (serve sudden lettered pair
      (λ file. none)
      (codes "html")
      plain
      (codes "/offer")
      9
      new_coordinator
      (record { method = codes "OPTIONS"; body = inl [] })).1
    ≡ reply (record { status = 204; body = [] })
unfolding serve cors_middleware bytes_eq
preflight = refl

offered :
    (serve sudden lettered pair
      (λ file. none)
      (codes "html")
      plain
      (codes "/offer")
      9
      new_coordinator
      (record { method = codes "POST"; body = inl [] })).1
    ≡ relayed
unfolding serve serve_mux respond cors_middleware lookup bytes_eq
offered = refl
