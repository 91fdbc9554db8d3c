-- ===== src/Coordinator/System/Tests.antt =====
-- The theorems of the running coordinator at concrete runs.
use rtc_bridge.Prelude.{
  Bytes, List, [], bytes_eq, codes, false, inl, insert, lookup, refl, some, true, ◌++◌, ◌∷◌, ◌≡◌,
  ◌≢◌,
}
use rtc_bridge.Protocol.Messages.{msg_answer}
use rtc_bridge.Coordinator.State.{Node, new_coordinator}
use rtc_bridge.Coordinator.Registry.{new_node, accept_node}
use rtc_bridge.Coordinator.Relay.{
  Request, Response, Offer, on_message, stuck, gateway_timeout, begin_offer, enter_pending,
  forward_offer, on_answer, send_answer, next_read, take_answer,
}
use rtc_bridge.Coordinator.System.{
  System, created, forwarded, finished, start, Event, accepts, reads, requests, enters, forwards,
  receives, times_out, cleans_up, run,
}
use rtc_bridge.Coordinator.System.Invariant.Steps.{run-never_stuck}
use rtc_bridge.Coordinator.System.Registered.Steps.{run-registered}
use rtc_bridge.Coordinator.System.Origin.{IsResponse}
use rtc_bridge.Coordinator.System.Origin.Steps.{HasSent, run-response}
use rtc_bridge.Coordinator.System.Exchange.{run-exchange, run-timeout}
use rtc_bridge.Coordinator.Broker.{idle, Reach}
use rtc_bridge.Coordinator.System.Refine.{broker}
use rtc_bridge.Coordinator.System.Refine.Run.{heard, run-broker}
use rtc_bridge.Samples.{reg, ans, lettered}

abbrev quote : Bytes → Bytes
quote s = s

abbrev post : Request
post = record { method = codes "POST"; body = inl (codes "body") }

-- A node registers, another one does, and a client asks for the first: up to the wait.
abbrev waiting : List Event
waiting =
    accepts reg 5
    ∷ accepts (record reg { node_id = codes "n2" }) 6
    ∷ requests post (codes "r1")
    ∷ enters 0
    ∷ forwards 0 true
    ∷ []

abbrev offer : Offer
offer = record { node = 0; request_id = codes "r1"; offer = codes "offer" }

abbrev first_node : Node
first_node = record (new_node reg 5) { pending = (codes "r1", 0) ∷ [] }

run-never_stuck_example :
    (on_message lettered 0 first_node (codes "A") (run lettered quote waiting start).coord).1
    ≢ stuck
unfolding run start new_coordinator accept_node begin_offer enter_pending forward_offer insert
    lookup bytes_eq
run-never_stuck_example = run-never_stuck lettered quote waiting 0 first_node (codes "A") refl

run-registered_example :
    (n : Node) × ((run lettered quote waiting start).coord.heap 1 ≡ some n)
    × (n.id ≡ codes "n2")
    × ((run lettered quote waiting start).looping 1 ≡ true)
    × ((run lettered quote waiting start).coord.closed 1 ≡ false)
unfolding run start new_coordinator accept_node begin_offer enter_pending forward_offer insert
    lookup bytes_eq
run-registered_example = run-registered lettered quote waiting (codes "n2") 1 refl

abbrev answered : List Event
answered = waiting ++ reads 0 (codes "A") 7 ∷ []

abbrev done : List Event
done = answered ++ receives 0 8 ∷ []

abbrev ok_response : Response
ok_response = record { status = 200; body = codes "sdp" }

run-response_example : IsResponse lettered (HasSent lettered done) offer ok_response
unfolding run start new_coordinator accept_node begin_offer enter_pending forward_offer on_message
    on_answer send_answer next_read take_answer insert lookup bytes_eq
run-response_example =
    run-response lettered quote done 0 (record { offer = offer; phase = finished ok_response })
      ok_response refl refl

run-broker_example :
    Reach lettered.encode_raw idle (broker (run lettered quote done start) (heard lettered done []))
run-broker_example = run-broker lettered quote done

abbrev asked : System
asked = run lettered quote (accepts reg 5 ∷ requests post (codes "r1") ∷ []) start

run-exchange_example :
    (run lettered quote
        (enters 0 ∷ forwards 0 true ∷ reads 0 (codes "A") 7 ∷ receives 0 8 ∷ [])
        asked).handlers
      0
    ≡ some (record { offer = offer; phase = finished ok_response })
unfolding run start new_coordinator accept_node begin_offer insert lookup bytes_eq
run-exchange_example =
    (run-exchange lettered quote asked 0 (record { offer = offer; phase = created })
      (new_node reg 5) (codes "A") (record { kind = msg_answer }) ans 7 8 refl refl refl refl refl
      refl refl refl refl refl).0

abbrev asking : System
asking = run lettered quote waiting start

run-timeout_example :
    (run lettered quote (times_out 0 ∷ cleans_up 0 ∷ []) asking).handlers 0
    ≡ some (record { offer = offer; phase = finished gateway_timeout })
unfolding run start new_coordinator accept_node begin_offer enter_pending forward_offer insert
    lookup bytes_eq
run-timeout_example =
    (run-timeout lettered quote asking 0 (record { offer = offer; phase = forwarded }) first_node
      ans refl refl refl refl).0
