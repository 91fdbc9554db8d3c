-- ===== src/Coordinator/System/Origin/Steps.antt =====
-- Every event keeps the origin of answers and responses.
use rtc_bridge.Prelude.{
  All, Bool, Bytes, List, Option, Option-cases, [], ap, delete, false, inl, inr, refl, some,
  some_injective, sym, true, update, ℕ, ◌∙◌, ◌∷◌, ◌≡◌, ◌⊎◌,
}
use rtc_bridge.Protocol.Messages.{AnswerMsg}
use rtc_bridge.Wire.{Codec}
use rtc_bridge.Coordinator.State.{Node, Coordinator, set_node}
use rtc_bridge.Coordinator.Registry.{accept_node, end_node, handle_ping}
use rtc_bridge.Coordinator.Registry.Lookup.{heap-prune}
use rtc_bridge.Coordinator.Relay.{
  Response, Offer, begin_offer, enter_pending, leave_pending, forward_offer, bad_gateway,
  gateway_timeout, take_answer, Next, keep_reading, leave, stuck, on_message, next_read,
  on_message_cases, on_answer_cases,
}
use rtc_bridge.Coordinator.System.{
  System, Handler, Phase, created, entered, forwarded, failed, timed_out, finished, start, step,
  Event, accepts, reads, pings, hangs_up, ticks, requests, enters, forwards, receives, times_out,
  cleans_up, run, enter_step, forward_step, receive_step, time_out_step, clean_up_step,
  after_message, started, with_node, can_read,
}
use rtc_bridge.Coordinator.System.Rules.{with_node_rule, with_handler_rule, if_rule}
use rtc_bridge.Coordinator.System.Invariant.{Inv, start-Inv, next_channel}
use rtc_bridge.Coordinator.System.Invariant.Steps.{step-Inv, send_answer-Fits}
use rtc_bridge.Coordinator.System.Origin.{
  IsResponse, IsOriginal, Origin, start-Origin, later_phase-IsOriginal, drained-IsOriginal,
  answered-IsOriginal, new_handler-IsOriginal,
}

-- The event is one of the events.
abbrev pub Occurs : Event → List Event → Type 0
Occurs e [] = ⊥
Occurs e (x ∷ xs) = (x ≡ e) ⊎ Occurs e xs

phase_injective : {r q : Response} → finished r ≡ finished q → r ≡ q
phase_injective e = cc

-- What an event reads is known to be read.
abbrev pub Provides : Codec → (ℕ → AnswerMsg → Type 0) → Event → Type 0
Provides j Reads (reads p raw now) =
    (ans : AnswerMsg) → j.decode_answer raw ≡ some ans → Reads p ans
Provides _ _ _ = Unit

module _ (j : Codec) (quote : Bytes → Bytes) (Reads : ℕ → AnswerMsg → Type 0) where
  on_message-IsOriginal :
      (p : ℕ) (n : Node) (raw : Bytes) (s : System)
      → Inv s
      → Origin j Reads s
      → ((ans : AnswerMsg) → j.decode_answer raw ≡ some ans → Reads p ans)
      → s.coord.heap p ≡ some n
      → IsOriginal j Reads (on_message j p n raw s.coord).0.buffers s.handlers
  on_message-IsOriginal p n raw s i v read at_p =
      let P = λ (r : Coordinator × Next). IsOriginal j Reads r.0.buffers s.handlers in
      on_message_cases P j p n raw s.coord v v λ ans decoded.
        on_answer_cases P p n ans s.coord (λ _. v)
          λ ch waits.
            let w = i.owned p n ans.request_id ch at_p waits in
            let after =
              set_node p (record n { pending = delete ans.request_id n.pending }) s.coord in
            rw (send_answer-Fits ch ans after w.is_empty) (
              answered-IsOriginal j Reads v p ch ans (read ans decoded) (λ h e.
                ap (λ (k : Handler). k.offer.node) (some_injective (sym e ∙ w.is_handler))
                ∙ w.same_node))

  after_message-Origin :
      (p : ℕ) (n : Node) (now : ℕ) (r : Coordinator × Next) (s : System)
      → Origin j Reads s
      → IsOriginal j Reads r.0.buffers s.handlers
      → Origin j Reads (after_message p n now r s)
  unfolding after_message next_read end_node
  after_message-Origin p n now (c, keep_reading) s v w = elim (Option-cases (c.heap p)) [
    | inl e ↦ rw (e, after_message) w
    | inr (m, e) ↦ rw (e, after_message) w
  ]
  after_message-Origin p n now (c, leave) s v w = w
  after_message-Origin p n now (c, stuck) s v w = v

  module _ (ch : ℕ) (h : Handler) (s : System) (v : Origin j Reads s)
      (at_ch : s.handlers ch ≡ some h) where
    enter_step-Origin : (phase : Phase) (n : Node) → Origin j Reads (enter_step ch h phase n s)
    unfolding enter_step enter_pending
    enter_step-Origin created n = later_phase-IsOriginal j Reads v ch h entered at_ch (λ r e. cc)
    enter_step-Origin _ n = v

    forward_step-Origin :
        (phase : Phase) (wrote : Bool) → Origin j Reads (forward_step j ch h phase wrote s)
    unfolding forward_step forward_offer
    forward_step-Origin entered true =
        later_phase-IsOriginal j Reads v ch h forwarded at_ch (λ r e. cc)
    forward_step-Origin entered false =
        later_phase-IsOriginal j Reads v ch h failed at_ch (λ r e. cc)
    forward_step-Origin _ wrote = v

    receive_step-Origin :
        Inv s
        → (phase : Phase) (now : ℕ) (ans : Option AnswerMsg) → s.coord.buffers ch ≡ ans
        → Origin j Reads (receive_step j ch h phase now ans s)
    unfolding receive_step take_answer
    receive_step-Origin i forwarded now (some ans) e =
        let (k, at, id) = i.matched ch ans e in
        let same = some_injective (sym at_ch ∙ at) in
        drained-IsOriginal j Reads
          (later_phase-IsOriginal j Reads v ch h _ at_ch (λ r f. inr (
            inr (
              ans,
              v.from_node ch ans h e at_ch,
              sym (ap (λ (k : Handler). k.offer.request_id) same ∙ id),
              phase_injective (sym f),
            ))))
          ch
    receive_step-Origin i _ now _ e = v

    time_out_step-Origin : (phase : Phase) → Origin j Reads (time_out_step ch h phase s)
    unfolding time_out_step
    time_out_step-Origin forwarded =
        later_phase-IsOriginal j Reads v ch h timed_out at_ch (λ r e. cc)
    time_out_step-Origin _ = v

    clean_up_step-Origin :
        (phase : Phase) (n : Node) → Origin j Reads (clean_up_step ch h phase n s)
    unfolding clean_up_step leave_pending
    clean_up_step-Origin failed n =
        later_phase-IsOriginal j Reads v ch h (finished bad_gateway) at_ch
          (λ r e. inl (phase_injective (sym e)))
    clean_up_step-Origin timed_out n =
        later_phase-IsOriginal j Reads v ch h (finished gateway_timeout) at_ch
          (λ r e. inr (inl (phase_injective (sym e))))
    clean_up_step-Origin _ n = v

  started-Origin :
      (r : Response ⊎ Offer) (s : System) → Inv s → Origin j Reads s → Origin j Reads (started r s)
  unfolding started
  started-Origin (inl response) s i v = v
  started-Origin (inr o) s i v = new_handler-IsOriginal j Reads v s.next o (next_channel s i)

  pub step-Origin :
      (e : Event) (s : System)
      → Inv s
      → Provides j Reads e
      → Origin j Reads s
      → Origin j Reads (step j quote e s)
  unfolding step accept_node handle_ping end_node
  step-Origin (accepts reg now) s i r v = v
  step-Origin (reads p raw now) s i r v = if_rule (Origin j Reads) s v (can_read p s) (
      with_node_rule (Origin j Reads) s v p
        (λ n. after_message p n now (on_message j p n raw s.coord))
        λ n e.
          after_message-Origin p n now (on_message j p n raw s.coord) s v
            (on_message-IsOriginal p n raw s i v r e))
  step-Origin (pings p app_data now) s i r v = if_rule (Origin j Reads) s v (can_read p s) (
      with_node_rule (Origin j Reads) s v p
        (λ n s. record s { coord = handle_ping p n app_data now s.coord }) (λ n e. v))
  step-Origin (hangs_up p) s i r v = if_rule (Origin j Reads) s v (s.looping p) (
      with_node_rule (Origin j Reads) s v p
        (λ n s. record s { coord = end_node p n s.coord; looping = update s.looping p false })
        (λ n e. v))
  step-Origin (ticks now) s i r v = let (h, b) = heap-prune now s.coord in rw b v
  step-Origin (requests r request_id) s i _ v =
      started-Origin (begin_offer j quote r request_id s.coord) s i v
  step-Origin (enters ch) s i r v =
      with_handler_rule (Origin j Reads) s v ch
        (λ h. with_node h.offer.node (enter_step ch h h.phase))
        λ h e.
          with_node_rule (Origin j Reads) s v h.offer.node (enter_step ch h h.phase)
            (λ n f. enter_step-Origin ch h s v e h.phase n)
  step-Origin (forwards ch wrote) s i r v =
      with_handler_rule (Origin j Reads) s v ch (λ h. forward_step j ch h h.phase wrote)
        (λ h e. forward_step-Origin ch h s v e h.phase wrote)
  step-Origin (receives ch now) s i r v =
      with_handler_rule (Origin j Reads) s v ch
        (λ h s. receive_step j ch h h.phase now (s.coord.buffers ch) s)
        (λ h e. receive_step-Origin ch h s v e i h.phase now (s.coord.buffers ch) refl)
  step-Origin (times_out ch) s i r v =
      with_handler_rule (Origin j Reads) s v ch (λ h. time_out_step ch h h.phase)
        (λ h e. time_out_step-Origin ch h s v e h.phase)
  step-Origin (cleans_up ch) s i r v =
      with_handler_rule (Origin j Reads) s v ch
        (λ h. with_node h.offer.node (clean_up_step ch h h.phase))
        λ h e.
          with_node_rule (Origin j Reads) s v h.offer.node (clean_up_step ch h h.phase)
            (λ n f. clean_up_step-Origin ch h s v e h.phase n)

  run-Origin :
      (es : List Event) (s : System)
      → Inv s
      → All (Provides j Reads) es
      → Origin j Reads s
      → Origin j Reads (run j quote es s)
  unfolding run
  run-Origin [] s i r v = v
  run-Origin (e ∷ es) s i r v =
      run-Origin es (step j quote e s) (step-Inv j quote e s i) r.1 (step-Origin e s i r.0 v)

-- An answer that a node sent: a message that was read from it decodes to it.
abbrev pub HasSent : Codec → List Event → ℕ → AnswerMsg → Type 0
HasSent j es p ans =
    (raw : Bytes) × (now : ℕ) × Occurs (reads p raw now) es × (j.decode_answer raw ≡ some ans)

provided : (j : Codec) (all : List Event) (e : Event) → Occurs e all → Provides j (HasSent j all) e
provided j all (reads p raw now) occurs = λ ans e. (raw, now, occurs, e)
provided j all _ occurs = tt

All-provided :
    (j : Codec) (all es : List Event)
    → ((e : Event) → Occurs e es → Occurs e all)
    → All (Provides j (HasSent j all)) es
All-provided j all [] within = tt
All-provided j all (e ∷ es) within = (
  provided j all e (within e (inl refl)),
  All-provided j all es (λ x occurs. within x (inr occurs)),
)

-- After any sequence of events: a call of `handleOffer` that had found its node, so that it did not
-- refuse the request, and that has finished has answered 502 or 504, or it has answered 200 with the
-- JSON of an answer that its own node has sent in one of these events, with the request id of this
-- call.
pub run-response :
    (j : Codec) (quote : Bytes → Bytes) (es : List Event) (ch : ℕ) (h : Handler) (r : Response)
    → (run j quote es start).handlers ch ≡ some h
    → h.phase ≡ finished r
    → IsResponse j (HasSent j es) h.offer r
run-response j quote es ch h r at_ch is =
    (run-Origin j quote (HasSent j es) es start start-Inv (All-provided j es es (λ e here. here))
        (start-Origin j (HasSent j es))).responded
      ch h r at_ch is
