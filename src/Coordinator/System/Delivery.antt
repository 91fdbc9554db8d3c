-- ===== src/Coordinator/System/Delivery.antt =====
-- The answers that reach the channel of a call of /offer.
use rtc_bridge.Prelude.{Bytes, List, arith, delete, refl, some, update-ne, ℕ, ◌≡◌, ◌≢◌}
use rtc_bridge.Protocol.Messages.{AnswerMsg}
use rtc_bridge.Wire.{Codec}
use rtc_bridge.Coordinator.State.{Node, Coordinator, set_node}
use rtc_bridge.Coordinator.Relay.{on_message, send_answer, on_message_cases, on_answer_cases}
use rtc_bridge.Coordinator.System.{Handler, start, Event, run}
use rtc_bridge.Coordinator.System.Invariant.{start-Inv}
use rtc_bridge.Coordinator.System.Invariant.Steps.{run-Inv}

-- In a reachable state an answer that lies in a channel belongs to the call of `handleOffer` that
-- waits on that channel: it carries the request id that this call has sent.
answer-request_id :
    (j : Codec) (quote : Bytes → Bytes) (es : List Event) (ch : ℕ) (ans : AnswerMsg)
    → (run j quote es start).coord.buffers ch ≡ some ans
    → (h : Handler) × ((run j quote es start).handlers ch ≡ some h)
      × (h.offer.request_id ≡ ans.request_id)
answer-request_id j quote es = (run-Inv j quote es start start-Inv).matched

send_answer-other :
    (d ch : ℕ) (ans : AnswerMsg) (c : Coordinator)
    → d ≢ ch
    → (send_answer d ans c).0.buffers ch ≡ c.buffers ch
unfolding send_answer
send_answer-other d ch ans c h = ground (arith, update-ne c.buffers d (some ans) ch h)

-- A node cannot answer for another: after any sequence of events, a message from a node changes no
-- channel of a call whose offer went to another node, whatever request id the message names.
on_message-other_node :
    (j : Codec) (quote : Bytes → Bytes) (es : List Event) (p : ℕ) (n : Node) (raw : Bytes) (ch : ℕ)
    (h : Handler)
    → (run j quote es start).coord.heap p ≡ some n
    → (run j quote es start).handlers ch ≡ some h
    → h.offer.node ≢ p
    → (on_message j p n raw (run j quote es start).coord).0.buffers ch
      ≡ (run j quote es start).coord.buffers ch
on_message-other_node j quote es p n raw ch h at_p at_ch other =
    let s = run j quote es start in
    let v = run-Inv j quote es start start-Inv in
    on_message_cases (λ r. r.0.buffers ch ≡ s.coord.buffers ch) j p n raw s.coord refl refl
      λ ans _.
        on_answer_cases (λ r. r.0.buffers ch ≡ s.coord.buffers ch) p n ans s.coord (λ _. refl)
          λ d e.
            let w = v.owned p n ans.request_id d at_p e in
            send_answer-other d ch ans
              (set_node p (record n { pending = delete ans.request_id n.pending }) s.coord)
              (λ clash. other (ground (arith, w.is_handler, w.same_node)))
