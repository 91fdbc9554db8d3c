-- ===== src/EndToEnd/Tests.antt =====
-- An offer and its answer on their whole way, at concrete values.
use rtc_bridge.Prelude.{Bytes, Option, [], codes, some, ◌∷◌}
use rtc_bridge.Samples.{reg}
use rtc_bridge.Coordinator.Relay.{Response}
use rtc_bridge.Coordinator.System.{start, accepts, run}
use rtc_bridge.EndToEnd.{relay}
use rtc_bridge.EndToEnd.Samples.{sdp, nested}

-- The node's WebRTC library answers every offer with the same text.
abbrev server : Bytes → Option Response
server =
    relay nested (λ s. s) sdp (λ offer. some (codes "answer")) sdp (codes "r1") 7 8
      (run nested (λ s. s) (accepts reg 5 ∷ []) start)
