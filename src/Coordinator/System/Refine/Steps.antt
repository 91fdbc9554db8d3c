-- ===== src/Coordinator/System/Refine/Steps.antt =====
-- Every event is a step of the broker, or several, or none.
use rtc_bridge.Prelude.{
  Bool, Bytes, List, Option, Option-cases, ap, arith, false, inl, inr, refl, some, some_injective,
  subst, sym, true, update, ℕ, ◌∙◌, ◌≡◌, ◌⊎◌,
}
use rtc_bridge.Prelude.{here}
use rtc_bridge.Protocol.Messages.{AnswerMsg}
use rtc_bridge.Wire.{Codec}
use rtc_bridge.Coordinator.State.{Node, Coordinator}
use rtc_bridge.Coordinator.Registry.{accept_node, end_node, handle_ping}
use rtc_bridge.Coordinator.Relay.{
  Response, Offer, begin_offer, enter_pending, leave_pending, forward_offer, take_answer, Next,
  keep_reading, leave, stuck, on_message, next_read, send_answer, on_message_cases, on_answer_cases,
  bad_gateway, gateway_timeout,
}
use rtc_bridge.Coordinator.System.{
  System, Handler, Phase, created, entered, forwarded, failed, timed_out, step, Event, accepts,
  reads, pings, hangs_up, ticks, requests, enters, forwards, receives, times_out, cleans_up,
  enter_step, forward_step, receive_step, time_out_step, clean_up_step, after_message, started,
  with_node, can_read,
}
use rtc_bridge.Coordinator.System.Rules.{with_node_rule, with_handler_rule, if_rule}
use rtc_bridge.Coordinator.System.Invariant.{Inv}
use rtc_bridge.Coordinator.System.Known.{IsFound, begin_offer-IsFound}
use rtc_bridge.Coordinator.System.Origin.{Origin}
use rtc_bridge.Coordinator.Broker.{IsSaid, Reach}
use rtc_bridge.Coordinator.System.Refine.{
  call_in, broker, view, insert-Reach, delete-Reach, prune-Reach, opens-Reach, waiting-view,
  answers-Reach, gives_up-Reach,
}

module _ (j : Codec) (said : List (ℕ × AnswerMsg)) where
  -- The broker can do what leads from one state to the other.
  abbrev Follows : System → System → Type 0
  Follows s t = Reach j.encode_raw (broker s said) (broker t said)

  module _ (ch : ℕ) (h : Handler) (s : System) (at_ch : s.handlers ch ≡ some h) where
    -- The call goes on waiting.
    waiting-Follows :
        (phase : Phase)
        → call_in h.offer phase ≡ call_in h.offer h.phase
        → Reach j.encode_raw
            (broker s said)
            (view s.coord.nodes (update s.handlers ch (some (record h { phase = phase }))) said)
    waiting-Follows phase same =
        subst (Reach j.encode_raw (broker s said))
          (sym (waiting-view j.encode_raw said s.coord.nodes s.handlers ch h at_ch phase same)) here

    enter_step-Follows :
        (phase : Phase) (n : Node) → h.phase ≡ phase → Follows s (enter_step ch h phase n s)
    unfolding enter_step enter_pending
    enter_step-Follows created n e = waiting-Follows entered (ap (call_in h.offer) (sym e))
    enter_step-Follows _ n e = here

    forward_step-Follows :
        (phase : Phase) (wrote : Bool)
        → h.phase ≡ phase
        → Follows s (forward_step j ch h phase wrote s)
    unfolding forward_step forward_offer
    forward_step-Follows entered true e = waiting-Follows forwarded (ap (call_in h.offer) (sym e))
    forward_step-Follows entered false e = waiting-Follows failed (ap (call_in h.offer) (sym e))
    forward_step-Follows _ wrote e = here

    receive_step-Follows :
        Inv s
        → Origin j (IsSaid said) s
        → (phase : Phase) (now : ℕ) (ans : Option AnswerMsg) → h.phase ≡ phase
        → s.coord.buffers ch ≡ ans
        → Follows s (receive_step j ch h phase now ans s)
    unfolding receive_step take_answer
    receive_step-Follows i v forwarded now (some ans) e full =
        let (k, at, id) = i.matched ch ans full in
        let one = some_injective (sym at_ch ∙ at) in
        answers-Reach j.encode_raw said s.coord.nodes s.handlers ch h at_ch ans
          (ap (call_in h.offer) e) (v.from_node ch ans h full at_ch)
          (sym (ap (λ (k : Handler). k.offer.request_id) one ∙ id))
    receive_step-Follows i v _ now _ e full = here

    time_out_step-Follows :
        (phase : Phase) → h.phase ≡ phase → Follows s (time_out_step ch h phase s)
    unfolding time_out_step
    time_out_step-Follows forwarded e = waiting-Follows timed_out (ap (call_in h.offer) (sym e))
    time_out_step-Follows _ e = here

    clean_up_step-Follows :
        (phase : Phase) (n : Node) → h.phase ≡ phase → Follows s (clean_up_step ch h phase n s)
    unfolding clean_up_step leave_pending
    clean_up_step-Follows failed n e =
        gives_up-Reach j.encode_raw said s.coord.nodes s.handlers ch h at_ch bad_gateway
          (ap (call_in h.offer) e) (inl refl)
    clean_up_step-Follows timed_out n e =
        gives_up-Reach j.encode_raw said s.coord.nodes s.handlers ch h at_ch gateway_timeout
          (ap (call_in h.offer) e) (inr refl)
    clean_up_step-Follows _ n e = here

  -- The read loop leaves the table alone, but for its end.
  send_answer-nodes :
      (ch : ℕ) (ans : AnswerMsg) (c : Coordinator) → (send_answer ch ans c).0.nodes ≡ c.nodes
  unfolding send_answer
  send_answer-nodes ch ans c = elim (Option-cases (c.buffers ch)) [
    | inl e ↦ rw (send_answer, e) refl
    | inr (x, e) ↦ rw (send_answer, e) refl
  ]

  on_message-nodes :
      (p : ℕ) (n : Node) (raw : Bytes) (c : Coordinator)
      → (on_message j p n raw c).0.nodes ≡ c.nodes
  on_message-nodes p n raw c =
      let P = λ (r : Coordinator × Next). r.0.nodes ≡ c.nodes in
      on_message_cases P j p n raw c refl refl
        λ ans _. on_answer_cases P p n ans c (λ _. refl) (λ ch _. send_answer-nodes ch ans _)

  after_message-Follows :
      (p : ℕ) (n : Node) (now : ℕ) (r : Coordinator × Next) (s : System)
      → r.0.nodes ≡ s.coord.nodes
      → Follows s (after_message p n now r s)
  unfolding after_message next_read end_node
  after_message-Follows p n now (c, keep_reading) s same = elim (Option-cases (c.heap p)) [
    | inl e ↦ rw (after_message, e) (rw same here)
    | inr (m, e) ↦ rw (after_message, e) (rw same here)
  ]
  after_message-Follows p n now (c, leave) s same =
      rw same (delete-Reach j.encode_raw said s.coord.nodes s.handlers n.id)
  after_message-Follows p n now (c, stuck) s same = here

  started-Follows :
      (r : Response ⊎ Offer) (s : System)
      → Inv s
      → ((o : Offer) → IsFound s.coord o r)
      → Follows s (started r s)
  unfolding started
  started-Follows (inl response) s i found = here
  started-Follows (inr o) s i found =
      let (id, at) = found o refl in
      opens-Reach j.encode_raw said s.coord.nodes s.handlers s.next o id at
        (i.fresh s.next (omega arith))

  pub step-Follows :
      (quote : Bytes → Bytes) (e : Event) (s : System)
      → Inv s
      → Origin j (IsSaid said) s
      → Follows s (step j quote e s)
  unfolding step accept_node handle_ping end_node
  step-Follows quote (accepts reg now) s i v =
      insert-Reach j.encode_raw said s.coord.nodes s.handlers reg.node_id s.next_node
  step-Follows quote (reads p raw now) s i v = if_rule (Follows s) s here (can_read p s) (
      with_node_rule (Follows s) s here p
        (λ n. after_message p n now (on_message j p n raw s.coord))
        (λ n e.
          after_message-Follows p n now (on_message j p n raw s.coord) s
            (on_message-nodes p n raw s.coord)))
  step-Follows quote (pings p app_data now) s i v = if_rule (Follows s) s here (can_read p s) (
      with_node_rule (Follows s) s here p
        (λ n s. record s { coord = handle_ping p n app_data now s.coord }) (λ n e. here))
  step-Follows quote (hangs_up p) s i v = if_rule (Follows s) s here (s.looping p) (
      with_node_rule (Follows s) s here p
        (λ n s. record s { coord = end_node p n s.coord; looping = update s.looping p false })
        (λ n e. delete-Reach j.encode_raw said s.coord.nodes s.handlers n.id))
  step-Follows quote (ticks now) s i v = prune-Reach j.encode_raw said now s.coord s.handlers
  step-Follows quote (requests r request_id) s i v =
      started-Follows (begin_offer j quote r request_id s.coord) s i
        (begin_offer-IsFound j quote r request_id s.coord)
  step-Follows quote (enters ch) s i v =
      with_handler_rule (Follows s) s here ch
        (λ h. with_node h.offer.node (enter_step ch h h.phase))
        λ h e.
          with_node_rule (Follows s) s here h.offer.node (enter_step ch h h.phase)
            (λ n f. enter_step-Follows ch h s e h.phase n refl)
  step-Follows quote (forwards ch wrote) s i v =
      with_handler_rule (Follows s) s here ch (λ h. forward_step j ch h h.phase wrote)
        (λ h e. forward_step-Follows ch h s e h.phase wrote refl)
  step-Follows quote (receives ch now) s i v =
      with_handler_rule (Follows s) s here ch
        (λ h s. receive_step j ch h h.phase now (s.coord.buffers ch) s)
        (λ h e. receive_step-Follows ch h s e i v h.phase now (s.coord.buffers ch) refl refl)
  step-Follows quote (times_out ch) s i v =
      with_handler_rule (Follows s) s here ch (λ h. time_out_step ch h h.phase)
        (λ h e. time_out_step-Follows ch h s e h.phase refl)
  step-Follows quote (cleans_up ch) s i v =
      with_handler_rule (Follows s) s here ch
        (λ h. with_node h.offer.node (clean_up_step ch h h.phase))
        λ h e.
          with_node_rule (Follows s) s here h.offer.node (clean_up_step ch h h.phase)
            (λ n f. clean_up_step-Follows ch h s e h.phase n refl)
