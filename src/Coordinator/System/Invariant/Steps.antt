-- ===== src/Coordinator/System/Invariant/Steps.antt =====
-- Every event keeps the invariant.
use rtc_bridge.Prelude.{
  Bool, Bool-cases, Bytes, List, Option, Option-cases, [], ap, arith, bytes_eq, bytes_eq_iff,
  delete, false, inl, inr, insert, lookup, lookup-delete, lookup-insert, none, refl, some, subst,
  sym, true, update, update_self, ℕ, ◌+◌, ◌∙◌, ◌∷◌, ◌≡◌, ◌≢◌, ◌⊎◌,
}
use rtc_bridge.Protocol.Messages.{AnswerMsg}
use rtc_bridge.Wire.{Codec}
use rtc_bridge.Coordinator.State.{Node, Coordinator, set_node, node_drop_after}
use rtc_bridge.Coordinator.Registry.{accept_node, end_node, handle_ping, new_node}
use rtc_bridge.Coordinator.Registry.Lookup.{heap-prune}
use rtc_bridge.Coordinator.Relay.{
  Response, Offer, begin_offer, enter_pending, leave_pending, forward_offer, bad_gateway,
  gateway_timeout, take_answer, Next, keep_reading, leave, stuck, on_message, next_read,
  send_answer, on_message_cases, on_answer_cases,
}
use rtc_bridge.Coordinator.System.{
  System, Handler, Phase, created, entered, forwarded, failed, timed_out, finished, start, step,
  Event, accepts, reads, pings, hangs_up, ticks, requests, enters, forwards, receives, times_out,
  cleans_up, run, enter_step, forward_step, receive_step, time_out_step, clean_up_step,
  after_message, started, with_node, can_read,
}
use rtc_bridge.Coordinator.System.Rules.{with_node_rule, with_handler_rule, if_rule}
use rtc_bridge.Coordinator.System.Invariant.{Inv, IsConsistent, IsOwned, start-Inv}
use rtc_bridge.Coordinator.System.Invariant.Changes.{
  write_node-IsConsistent, later_phase-IsConsistent, new_handler-IsConsistent, drained-IsConsistent,
  answered-IsConsistent,
}

abbrev Fits : System → Coordinator → Type 0
Fits s c = IsConsistent c.heap c.buffers s.handlers s.next

pub send_answer-Fits :
    (ch : ℕ) (ans : AnswerMsg) (c : Coordinator)
    → c.buffers ch ≡ none
    → send_answer ch ans c ≡ (record c { buffers = update c.buffers ch (some ans) }, keep_reading)
unfolding send_answer
send_answer-Fits ch ans c e = rw (e, send_answer)

-- The read loop is never blocked by a send: in a state where the invariant holds, a message from a
-- node leads to a state where it holds, and the channel that an answer goes to has room.
pub on_message-Fits :
    (j : Codec) (p : ℕ) (n : Node) (raw : Bytes) (s : System)
    → Inv s
    → s.coord.heap p ≡ some n
    → Fits s (on_message j p n raw s.coord).0 × ((on_message j p n raw s.coord).1 ≢ stuck)
on_message-Fits j p n raw s v at_p =
    on_message_cases (λ r. Fits s r.0 × (r.1 ≢ stuck)) j p n raw s.coord (v, λ h. cc) (v, λ h. cc)
      λ ans _.
        on_answer_cases (λ r. Fits s r.0 × (r.1 ≢ stuck)) p n ans s.coord (λ _. (v, λ h. cc))
          λ ch e.
            let w = v.owned p n ans.request_id ch at_p e in
            let after =
              set_node p (record n { pending = delete ans.request_id n.pending }) s.coord in
            rw (send_answer-Fits ch ans after w.is_empty)
              (answered-IsConsistent v p n ans ch at_p e, λ h. cc)

-- A node object is replaced by one with the same pending requests.
same_pending-Fits :
    (p : ℕ) (n m : Node) (s : System) (c : Coordinator)
    → Fits s c
    → c.heap p ≡ some n
    → m.pending ≡ n.pending
    → Fits s (set_node p m c)
same_pending-Fits p n m s c v at_p same =
    write_node-IsConsistent v p m (λ r ch e. v.owned p n r ch at_p (ap (lookup r) (sym same) ∙ e))

after_message-Inv :
    (p : ℕ) (n : Node) (now : ℕ) (r : Coordinator × Next) (s : System)
    → Inv s
    → Fits s r.0
    → Inv (after_message p n now r s)
unfolding after_message next_read end_node
after_message-Inv p n now (c, keep_reading) s v w = elim (Option-cases (c.heap p)) [
  | inl e ↦ rw (e, after_message) w
  | inr (m, e) ↦
      rw (e, after_message)
        (same_pending-Fits p m (record m { deadline = now + node_drop_after }) s c w e refl)
]
after_message-Inv p n now (c, leave) s v w = w
after_message-Inv p n now (c, stuck) s v w = v

module _ (ch : ℕ) (h : Handler) (s : System) (v : Inv s) (at_ch : s.handlers ch ≡ some h) where
  enter_step-Inv :
      (phase : Phase) (n : Node)
      → h.phase ≡ phase
      → s.coord.heap h.offer.node ≡ some n
      → Inv (enter_step ch h phase n s)
  unfolding enter_step enter_pending
  enter_step-Inv created n at_phase at_node =
      let later = later_phase-IsConsistent v ch h entered at_ch refl in
      write_node-IsConsistent later h.offer.node
        (record n { pending = insert h.offer.request_id ch n.pending })
        λ r d e. elim (Bool-cases (bytes_eq h.offer.request_id r)) [
          | inl same ↦
              let here : ch ≡ d = ground (arith, lookup-insert h.offer.request_id r ch n.pending) in
              subst
                (IsOwned s.coord.buffers
                  (update s.handlers ch (some (record h { phase = entered }))) h.offer.node r)
                here
                (record {
                  handler = record h { phase = entered };
                  is_handler = update_self s.handlers ch (some (record h { phase = entered }));
                  same_node = refl;
                  same_id = (bytes_eq_iff h.offer.request_id r).0 same;
                  is_entered = refl;
                  is_empty = v.unsent ch h at_ch (ground arith);
                })
          | inr other ↦
              later.owned h.offer.node n r d at_node
                (ground (arith, lookup-insert h.offer.request_id r ch n.pending))
        ]
  enter_step-Inv entered n at_phase at_node = v
  enter_step-Inv forwarded n at_phase at_node = v
  enter_step-Inv failed n at_phase at_node = v
  enter_step-Inv timed_out n at_phase at_node = v
  enter_step-Inv (finished r) n at_phase at_node = v

  forward_step-Inv :
      (j : Codec) (phase : Phase) (wrote : Bool) → Inv (forward_step j ch h phase wrote s)
  unfolding forward_step forward_offer
  forward_step-Inv j entered true = later_phase-IsConsistent v ch h forwarded at_ch refl
  forward_step-Inv j entered false = later_phase-IsConsistent v ch h failed at_ch refl
  forward_step-Inv j _ wrote = v

  receive_step-Inv :
      (j : Codec) (phase : Phase) (now : ℕ) (ans : Option AnswerMsg)
      → Inv (receive_step j ch h phase now ans s)
  unfolding receive_step take_answer
  receive_step-Inv j forwarded now (some ans) =
      drained-IsConsistent
        (later_phase-IsConsistent v ch h
          (finished (record { status = 200; body = j.encode_raw ans.answer })) at_ch refl)
        ch
  receive_step-Inv j _ now _ = v

  time_out_step-Inv : (phase : Phase) → Inv (time_out_step ch h phase s)
  unfolding time_out_step
  time_out_step-Inv forwarded = later_phase-IsConsistent v ch h timed_out at_ch refl
  time_out_step-Inv _ = v

  left-Inv :
      (response : Response) (n : Node)
      → s.coord.heap h.offer.node ≡ some n
      → IsConsistent
          (leave_pending h.offer n s.coord).heap
          s.coord.buffers
          (update s.handlers ch (some (record h { phase = finished response })))
          s.next
  unfolding leave_pending
  left-Inv response n at_node =
      let later = later_phase-IsConsistent v ch h (finished response) at_ch refl in
      write_node-IsConsistent later h.offer.node
        (record n { pending = delete h.offer.request_id n.pending })
        (λ r d e.
          later.owned h.offer.node n r d at_node
            (ground (arith, lookup-delete h.offer.request_id r n.pending)))

  clean_up_step-Inv :
      (phase : Phase) (n : Node)
      → s.coord.heap h.offer.node ≡ some n
      → Inv (clean_up_step ch h phase n s)
  unfolding clean_up_step leave_pending
  clean_up_step-Inv failed n at_node = left-Inv bad_gateway n at_node
  clean_up_step-Inv timed_out n at_node = left-Inv gateway_timeout n at_node
  clean_up_step-Inv _ n at_node = v

started-Inv : (r : Response ⊎ Offer) (s : System) → Inv s → Inv (started r s)
unfolding started
started-Inv (inl response) s v = v
started-Inv (inr o) s v = new_handler-IsConsistent v o

module _ (j : Codec) (quote : Bytes → Bytes) where
  -- Every event keeps the invariant.
  pub step-Inv : (e : Event) (s : System) → Inv s → Inv (step j quote e s)
  unfolding step accept_node handle_ping end_node lookup
  step-Inv (accepts reg now) s v =
      write_node-IsConsistent v s.next_node (new_node reg now) (λ r ch e. cc)
  step-Inv (reads p raw now) s v = if_rule Inv s v (can_read p s) (
      with_node_rule Inv s v p (λ n. after_message p n now (on_message j p n raw s.coord))
        λ n e. after_message-Inv p n now _ s v (on_message-Fits j p n raw s v e).0)
  step-Inv (pings p app_data now) s v = if_rule Inv s v (can_read p s) (
      with_node_rule Inv s v p (λ n s. record s { coord = handle_ping p n app_data now s.coord })
        λ n e.
          same_pending-Fits p n (record n { last_seen = now; deadline = now + node_drop_after }) s
            s.coord v e refl)
  step-Inv (hangs_up p) s v = if_rule Inv s v (s.looping p) (
      with_node_rule Inv s v p
        (λ n s. record s { coord = end_node p n s.coord; looping = update s.looping p false })
        (λ n e. v))
  step-Inv (ticks now) s v = let (h, b) = heap-prune now s.coord in rw (h, b) v
  step-Inv (requests r request_id) s v = started-Inv (begin_offer j quote r request_id s.coord) s v
  step-Inv (enters ch) s v =
      with_handler_rule Inv s v ch (λ h. with_node h.offer.node (enter_step ch h h.phase))
        λ h e.
          with_node_rule Inv s v h.offer.node (enter_step ch h h.phase)
            (λ n f. enter_step-Inv ch h s v e h.phase n refl f)
  step-Inv (forwards ch wrote) s v =
      with_handler_rule Inv s v ch (λ h. forward_step j ch h h.phase wrote)
        (λ h e. forward_step-Inv ch h s v e j h.phase wrote)
  step-Inv (receives ch now) s v =
      with_handler_rule Inv s v ch (λ h s. receive_step j ch h h.phase now (s.coord.buffers ch) s)
        (λ h e. receive_step-Inv ch h s v e j h.phase now (s.coord.buffers ch))
  step-Inv (times_out ch) s v =
      with_handler_rule Inv s v ch (λ h. time_out_step ch h h.phase)
        (λ h e. time_out_step-Inv ch h s v e h.phase)
  step-Inv (cleans_up ch) s v =
      with_handler_rule Inv s v ch (λ h. with_node h.offer.node (clean_up_step ch h h.phase))
        λ h e.
          with_node_rule Inv s v h.offer.node (clean_up_step ch h h.phase)
            (λ n f. clean_up_step-Inv ch h s v e h.phase n f)

  pub run-Inv : (es : List Event) (s : System) → Inv s → Inv (run j quote es s)
  unfolding run
  run-Inv [] s v = v
  run-Inv (e ∷ es) s v = run-Inv es (step j quote e s) (step-Inv e s v)

  -- After any sequence of events from the start, a message from any node is handled without a send
  -- to a full channel, so no read loop is ever blocked by a waiter that has gone.
  pub run-never_stuck :
      (es : List Event) (p : ℕ) (n : Node) (raw : Bytes)
      → (run j quote es start).coord.heap p ≡ some n
      → (on_message j p n raw (run j quote es start).coord).1 ≢ stuck
  run-never_stuck es p n raw e =
      (on_message-Fits j p n raw (run j quote es start) (run-Inv es start start-Inv) e).1
