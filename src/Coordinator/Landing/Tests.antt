-- ===== src/Coordinator/Landing/Tests.antt =====
-- The handlers of coordinator/landing.go at concrete values.
use rtc_bridge.Prelude.{
  Bytes, [], bytes_eq, codes, if◌then◌else◌, inl, none, refl, ℕ, ◌*◌, ◌+◌, ◌-◌, ◌==◌, ◌∷◌, ◌≡◌,
}
use rtc_bridge.Float.{Float}
use rtc_bridge.Coordinator.State.{Coordinator, new_coordinator}
use rtc_bridge.Coordinator.Relay.{Request}
use rtc_bridge.Coordinator.Landing.{handle_stats, serve_static, handle_landing}

-- Numbers on which only the exchanges of this very moment weigh anything.
abbrev pub sudden : Float ℕ
sudden = record {
  add = λ a b. a + b;
  sub = λ a b. a - b;
  mul = λ a b. a * b;
  div = λ a b. a;
  neg = λ a. a;
  exp = λ a. if a == 0 then 1 else 0;
  constant = λ n d. n;
  seconds = λ n. n;
  duration = λ n. n;
}

abbrev coordinator : Coordinator
coordinator = record new_coordinator { nodes = (codes "n1", 0) ∷ []; exchanges = 9 ∷ 9 ∷ 4 ∷ [] }

abbrev get : Request
get = record { method = codes "GET"; body = inl [] }

abbrev pub pair : ℕ → ℕ → Bytes
pair n rate = n ∷ rate ∷ []

two_exchanges :
    handle_stats sudden pair 9 get coordinator ≡ record { status = 200; body = 1 ∷ 7200 ∷ [] }
unfolding handle_stats bytes_eq
two_exchanges = refl

no_such_file :
    serve_static (λ path. none) (codes "static/demo.html") (codes "text/html")
    ≡ record { content_type = []; response = record { status = 404; body = codes "not found\n" } }
unfolding serve_static
no_such_file = refl

other_path : handle_landing (codes "<html>") (codes "/demo") ≡ record {
  content_type = [];
  response = record { status = 404; body = codes "404 page not found\n" };
}
unfolding handle_landing bytes_eq
other_path = refl
