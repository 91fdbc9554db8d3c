-- ===== src/Node/Coordination/Tests.antt =====
-- The connection to a coordinator at concrete values.
use rtc_bridge.Float.{Float}
use rtc_bridge.Prelude.{
  Bytes, [], arith, codes, false, inr, none, refl, replicate, some, true, ℕ, ◌*◌, ◌+◌, ◌-◌, ◌/◌,
  ◌∷◌, ◌≡◌,
}
use rtc_bridge.Protocol.Messages.{RegisterMsg}
use rtc_bridge.Protocol.NodeId.{node_id}
use rtc_bridge.Coordinator.Handshake.{accepted, challenge_msg, handshake}
use rtc_bridge.Node.Identity.{identity_from_priv_key}
use rtc_bridge.Node.Coordination.{
  dial_failed, challenge_expected, connect_coordinator, ticked, cancelled, stopped, ping, text,
  closed, ping_loop, read_challenge,
}
use rtc_bridge.Node.Coordination.Honest.{working, connect_coordinator-accepted}
use rtc_bridge.Node.Coordination.Panics.{connect_coordinator-panics_iff}
use rtc_bridge.Node.Coordination.Backoff.{Pass, run_coordinator, run_coordinator-cancelled}
use rtc_bridge.Samples.{
  toy, toy-IsDigest, priv, priv-IsKey, sign-IsBytes, r_node, r_coord, lettered,
}
use rtc_bridge.Samples.Prefixed.{prefixed, prefixed-IsCodec}

connect_coordinator-accepted_example :
    (hello : Bytes) × (register : Bytes) × (reg : RegisterMsg) × (connect_coordinator toy prefixed
        (identity_from_priv_key toy priv)
        (codes "echo" ∷ [])
        (working r_node (prefixed.encode_challenge (challenge_msg r_coord)))
      ≡ some (record { sent = hello ∷ register ∷ []; error = none }))
    × (handshake toy prefixed (some hello) (some r_coord) true (some register)
        ≡ some (accepted reg))
    × (reg.node_id ≡ node_id toy (replicate 32 7))
    × (reg.services ≡ codes "echo" ∷ [])
connect_coordinator-accepted_example =
    connect_coordinator-accepted toy-IsDigest priv-IsKey sign-IsBytes (omega arith) prefixed-IsCodec
      (codes "echo" ∷ []) (omega arith) r_node r_coord refl refl (omega arith) (omega arith)

-- Arithmetic on numbers, for the shape of the delays only.
abbrev counting : Float ℕ
counting = record {
  add = λ a b. a + b;
  sub = λ a b. a - b;
  mul = λ a b. a * b;
  div = λ a b. a / b;
  exp = λ a. a;
  neg = λ a. 0;
  seconds = λ n. n / 1000000000;
  duration = λ n. n;
  constant = λ n d. n / d;
}

abbrev short : Pass ℕ
short = record { lasted = 5; cancelled = false; cancelled_waiting = false; random = 0 }

abbrev long : Pass ℕ
long = record { lasted = 40000000000; cancelled = false; cancelled_waiting = true; random = 0 }

run_coordinator-cancelled_example :
    run_coordinator counting 1 (long ∷ short ∷ []) ≡ run_coordinator counting 1 (long ∷ [])
run_coordinator-cancelled_example =
    run_coordinator-cancelled counting 1 long (short ∷ []) [] (inr refl)

not_dialed :
    connect_coordinator toy lettered
      (identity_from_priv_key toy priv)
      []
      (record (working r_node []) { dialed = false })
    ≡ some (record { sent = []; error = some dial_failed })
unfolding connect_coordinator
not_dialed = refl

no_challenge :
    connect_coordinator toy lettered
      (identity_from_priv_key toy priv)
      []
      (working r_node (codes "?"))
    ≡ some (record { sent = codes "H" ∷ []; error = some (challenge_expected (codes "?")) })
unfolding connect_coordinator read_challenge
no_challenge = refl

last_words :
    ping_loop lettered (ticked ∷ cancelled ∷ ticked ∷ []) ≡ ping ∷ text (codes "C") ∷ closed ∷ []
unfolding ping_loop
last_words = refl

stops : ping_loop lettered (stopped ∷ ticked ∷ []) ≡ []
unfolding ping_loop
stops = refl

-- A coordinator that sends three bytes.
connect_coordinator-panics_iff_example :
    connect_coordinator toy prefixed
      (identity_from_priv_key toy priv)
      []
      (working r_node (prefixed.encode_challenge (challenge_msg (codes "abc"))))
    ≡ none
connect_coordinator-panics_iff_example =
    (connect_coordinator-panics_iff toy prefixed (identity_from_priv_key toy priv) [] r_node
        (prefixed.encode_challenge (challenge_msg (codes "abc"))) (challenge_msg (codes "abc")) refl
        (prefixed-IsCodec.challenge_trip (challenge_msg (codes "abc")) (omega arith) (omega arith))
        refl).1
      (omega arith)
