-- ===== src/Coordinator/Landing.antt =====
-- coordinator/landing.go: the rate of exchanges, and the handlers beside the relay. The calls of
-- `record` come in the order of the lock, with times in any order. The page's text, a constant, is an
-- argument.
pub mod Tests
use rtc_bridge.Prelude.{
  Bytes, List, Option, [], bytes_eq, codes, if◌then◌else◌, leb, length, none, not, some, ℕ, ◌*◌,
  ◌-◌, ◌∷◌,
}
use rtc_bridge.Float.{Float}
use rtc_bridge.Coordinator.State.{Coordinator}
use rtc_bridge.Coordinator.Relay.{Request, Response, http_error}

-- `sdpTracker`: `last` is `none` for the zero time.
pub record SdpTracker (F : Type 0) : Type 0 where
  pub sum : F
  pub last : Option ℕ

module _ {F : Type 0} (f : Float F) where
  abbrev pub zero_float : F
  zero_float = f.constant 0 1

  abbrev pub one_float : F
  one_float = f.constant 1 1

  -- `sdpTau`.
  abbrev pub sdp_tau : F
  sdp_tau = f.constant (6 * 3600) 1

  -- `now.Sub(last).Seconds()`, where `now` can be the earlier time: the clock is read before the lock
  -- is taken.
  abbrev pub elapsed : ℕ → ℕ → F
  elapsed last now = if leb last now then f.seconds (now - last) else f.neg (f.seconds (last - now))

  -- `math.Exp(-dt / sdpTau)` between two times.
  abbrev pub decay : ℕ → ℕ → F
  decay last now = f.exp (f.div (f.neg (elapsed last now)) sdp_tau)

  -- `record` at the time `now`.
  unfoldable pub record_exchange : ℕ → SdpTracker F → SdpTracker F
  record_exchange now s = elim s.last [
    | none ↦ record { sum = f.add s.sum one_float; last = some now }
    | some last ↦ record { sum = f.add (f.mul s.sum (decay last now)) one_float; last = some now }
  ]

  -- The tracker of a coordinator after calls of `record` with these times, the last call first.
  unfoldable pub tracker_of : List ℕ → SdpTracker F
  unfolding record_exchange
  tracker_of [] = record { sum = zero_float; last = none }
  tracker_of (now ∷ log) = record_exchange now (tracker_of log)

  -- `perHour` at the time `now`.
  unfoldable pub per_hour : ℕ → SdpTracker F → F
  per_hour now s = elim s.last [
    | none ↦ zero_float
    | some last ↦ f.div (f.mul (f.mul s.sum (decay last now)) (f.constant 3600 1)) sdp_tau
  ]

  -- `handleStats`: `encode` is the JSON of the number of nodes and the rate.
  unfoldable pub handle_stats : (ℕ → F → Bytes) → ℕ → Request → Coordinator → Response
  unfolding tracker_of per_hour
  handle_stats encode now r c =
      if not (bytes_eq r.method (codes "GET")) then http_error (codes "GET only") 405 else record {
        status = 200;
        body = encode (length c.nodes) (per_hour now (tracker_of c.exchanges));
      }

-- A response with its content type, empty for the type of an error text.
pub record Page : Type 0 where
  pub content_type : Bytes
  pub response : Response

-- `serveStatic`: `read_file` reads the embedded files.
unfoldable pub serve_static : (Bytes → Option Bytes) → Bytes → Bytes → Page
serve_static read_file path content_type = elim (read_file path) [
  | none ↦ record { content_type = []; response = http_error (codes "not found") 404 }
  | some content ↦ record {
    content_type = content_type;
    response = record { status = 200; body = content };
  }
]

-- `handleLanding` of the path of a request.
unfoldable pub handle_landing : Bytes → Bytes → Page
handle_landing landing_html path =
    if not (bytes_eq path (codes "/"))
    then record { content_type = []; response = http_error (codes "404 page not found") 404 }
    else record {
      content_type = codes "text/html; charset=utf-8";
      response = record { status = 200; body = landing_html };
    }
