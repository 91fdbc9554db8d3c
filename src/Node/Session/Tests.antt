-- ===== src/Node/Session/Tests.antt =====
-- A data channel at concrete events.
use rtc_bridge.Prelude.{
  Bytes, List, Map, [], bytes_eq, codes, false, has_prefix, lookup, map, none, refl, some,
  trim_prefix, true, ◌++◌, ◌∷◌, ◌≡◌,
}
use rtc_bridge.Samples.{toy, priv, lettered}
use rtc_bridge.Node.Identity.{identity_from_priv_key}
use rtc_bridge.Node.Channel.{
  World, bridges, text_out, no_session, trim_right, on_command, on_connect, run_channel,
}
use rtc_bridge.Node.Bridge.{bridge, message, closes, drains}
use rtc_bridge.Node.Session.{Channel, new_channel, bridged, ended, Move, rounds, occurs, moves}
use rtc_bridge.Node.Session.Order.{moves-bridged}

abbrev services : Map Bytes
services = (codes "echo", codes "127.0.0.1:7777") ∷ []

abbrev world : World
world = record { random = none; dial_error = λ t. none }

-- The client does not wait for the reply to its command.
abbrev events : List Move
events =
    occurs (message (codes "ping"))
    ∷ rounds world
    ∷ occurs (message (codes "connect echo\n"))
    ∷ occurs (message (codes "a"))
    ∷ occurs (message (codes "b"))
    ∷ rounds world
    ∷ occurs (drains true)
    ∷ []

abbrev after_events : Channel
after_events = record {
  queue = record (bridge (codes "a" ∷ codes "b" ∷ []) false) {
    buf = codes "b" ∷ [];
    written = codes "a" ∷ [];
  };
  stage = bridged (codes "127.0.0.1:7777");
  received = codes "ping" ∷ codes "connect echo\n" ∷ codes "a" ∷ codes "b" ∷ [];
  taken = codes "ping" ∷ codes "connect echo\n" ∷ [];
  out = text_out (codes "pong") ∷ text_out (codes "ok") ∷ [];
}

runs :
    moves toy lettered (λ s. s) (identity_from_priv_key toy priv) services events new_channel
    ≡ some after_events
unfolding moves on_command on_connect trim_right bytes_eq has_prefix trim_prefix lookup
runs = refl

moves-bridged_example :
    ((rest : List Bytes) × (after_events.received ≡ after_events.taken ++ (codes "a" ∷ [] ++ rest))
      × (true ≡ true → rest ≡ codes "b" ∷ []))
    × ((commands : List (Bytes × World)) × (map (λ m. m.0) commands ≡ after_events.taken)
        × (run_channel toy lettered
              (λ s. s)
              (identity_from_priv_key toy priv)
              services
              commands
              no_session
            ≡ some (after_events.out, bridges (codes "127.0.0.1:7777"))))
    × ((name : Bytes) × (lookup name services ≡ some (codes "127.0.0.1:7777")))
moves-bridged_example =
    moves-bridged toy lettered (λ s. s) (identity_from_priv_key toy priv) services events
      after_events (codes "127.0.0.1:7777") runs refl

-- The loop returns when the channel is closed.
closed :
    (t : Channel) × (moves toy lettered
        (λ s. s)
        (identity_from_priv_key toy priv)
        services
        (occurs closes ∷ rounds world ∷ [])
        new_channel
      ≡ some t)
    × (t.stage ≡ ended)
unfolding moves
closed = (_, refl, refl)
