-- ===== src/Coordinator/System/Registered/Steps.antt =====
-- Every event keeps the registry.
use rtc_bridge.Prelude.{
  Bool, Bytes, List, Option, Option-cases, [], delete, false, inl, inr, insert, lookup, refl, some,
  subst, true, update, update-ne, update_self, ℕ, ◌+◌, ◌∷◌, ◌≡◌, ◌≢◌, ◌⊎◌,
}
use rtc_bridge.Protocol.Messages.{AnswerMsg}
use rtc_bridge.Wire.{Codec}
use rtc_bridge.Coordinator.State.{Node, Coordinator, set_node, node_drop_after}
use rtc_bridge.Coordinator.Registry.{accept_node, end_node, handle_ping, new_node}
use rtc_bridge.Coordinator.Relay.{
  Response, Offer, begin_offer, enter_pending, leave_pending, forward_offer, take_answer, Next,
  keep_reading, leave, stuck, on_message, next_read, send_answer, on_message_cases, on_answer_cases,
}
use rtc_bridge.Coordinator.System.{
  System, Handler, Phase, created, entered, forwarded, failed, timed_out, start, step, Event,
  accepts, reads, pings, hangs_up, ticks, requests, enters, forwards, receives, times_out,
  cleans_up, run, enter_step, forward_step, receive_step, time_out_step, clean_up_step,
  after_message, started, with_node, can_read,
}
use rtc_bridge.Coordinator.System.Rules.{with_node_rule, with_handler_rule, if_rule}
use rtc_bridge.Coordinator.System.Invariant.{Inv, start-Inv}
use rtc_bridge.Coordinator.System.Invariant.Steps.{step-Inv, on_message-Fits}
use rtc_bridge.Coordinator.System.Registered.{
  IsRegistry, Registered, start-Registered, written-IsRegistry, accepted-IsRegistry,
  ended-IsRegistry, prune-Registered,
}

abbrev pub IsKept : System → Type 0
IsKept s = Registered s s.coord

-- After a message the node still has its id.
abbrev StillThere : ℕ → Node → Coordinator → Type 0
StillThere p n c = (m : Node) × (c.heap p ≡ some m) × (m.id ≡ n.id)

send_answer-Registered :
    (ch : ℕ) (ans : AnswerMsg) (s : System) (p : ℕ) (n : Node) (c : Coordinator)
    → Registered s c
    → StillThere p n c
    → Registered s (send_answer ch ans c).0 × StillThere p n (send_answer ch ans c).0
unfolding send_answer
send_answer-Registered ch ans s p n c v there = elim (Option-cases (c.buffers ch)) [
  | inl e ↦ rw (e, send_answer) (v, there)
  | inr (x, e) ↦ rw (e, send_answer) (v, there)
]

on_message-Registered :
    (j : Codec) (p : ℕ) (n : Node) (raw : Bytes) (s : System)
    → IsKept s
    → s.coord.heap p ≡ some n
    → Registered s (on_message j p n raw s.coord).0
      × StillThere p n (on_message j p n raw s.coord).0
on_message-Registered j p n raw s v at_p =
    let P = λ (r : Coordinator × Next). Registered s r.0 × StillThere p n r.0 in
    on_message_cases P j p n raw s.coord (v, (n, at_p, refl)) (v, (n, at_p, refl))
      λ ans _.
        on_answer_cases P p n ans s.coord (λ _. (v, (n, at_p, refl)))
          λ ch _.
            let m = record n { pending = delete ans.request_id n.pending } in
            send_answer-Registered ch ans s p n (set_node p m s.coord)
              (written-IsRegistry v p n m at_p refl) (m, update_self s.coord.heap p (some m), refl)

after_message-IsKept :
    (p : ℕ) (n : Node) (now : ℕ) (r : Coordinator × Next) (s : System)
    → Registered s r.0
    → StillThere p n r.0
    → r.1 ≢ stuck
    → IsKept (after_message p n now r s)
unfolding after_message next_read end_node
after_message-IsKept p n now (c, keep_reading) s v (m, at_p, same) free =
    rw (after_message, at_p)
      (written-IsRegistry v p m (record m { deadline = now + node_drop_after }) at_p refl)
after_message-IsKept p n now (c, leave) s v (m, at_p, same) free =
    subst
      (λ i.
        IsRegistry (delete i c.nodes) c.heap (update c.closed p true) (update s.looping p false)
          s.next_node)
      same
      (ended-IsRegistry v p m (update s.looping p false) at_p
        (λ q other. update-ne s.looping p false q other))
after_message-IsKept p n now (c, stuck) s v there free = absurd (free refl)

module _ (ch : ℕ) (h : Handler) (s : System) (v : IsKept s) where
  enter_step-IsKept :
      (phase : Phase) (n : Node)
      → s.coord.heap h.offer.node ≡ some n
      → IsKept (enter_step ch h phase n s)
  unfolding enter_step enter_pending
  enter_step-IsKept created n at_p =
      written-IsRegistry v h.offer.node n
        (record n { pending = insert h.offer.request_id ch n.pending }) at_p refl
  enter_step-IsKept _ n at_p = v

  forward_step-IsKept :
      (j : Codec) (phase : Phase) (wrote : Bool) → IsKept (forward_step j ch h phase wrote s)
  unfolding forward_step forward_offer
  forward_step-IsKept j entered true = v
  forward_step-IsKept j entered false = v
  forward_step-IsKept j _ wrote = v

  receive_step-IsKept :
      (j : Codec) (phase : Phase) (now : ℕ) (ans : Option AnswerMsg)
      → IsKept (receive_step j ch h phase now ans s)
  unfolding receive_step take_answer
  receive_step-IsKept j forwarded now (some ans) = v
  receive_step-IsKept j _ now _ = v

  time_out_step-IsKept : (phase : Phase) → IsKept (time_out_step ch h phase s)
  unfolding time_out_step
  time_out_step-IsKept forwarded = v
  time_out_step-IsKept _ = v

  clean_up_step-IsKept :
      (phase : Phase) (n : Node)
      → s.coord.heap h.offer.node ≡ some n
      → IsKept (clean_up_step ch h phase n s)
  unfolding clean_up_step leave_pending
  clean_up_step-IsKept failed n at_p =
      written-IsRegistry v h.offer.node n
        (record n { pending = delete h.offer.request_id n.pending }) at_p refl
  clean_up_step-IsKept timed_out n at_p =
      written-IsRegistry v h.offer.node n
        (record n { pending = delete h.offer.request_id n.pending }) at_p refl
  clean_up_step-IsKept _ n at_p = v

started-IsKept : (r : Response ⊎ Offer) (s : System) → IsKept s → IsKept (started r s)
unfolding started
started-IsKept (inl response) s v = v
started-IsKept (inr o) s v = v

module _ (j : Codec) (quote : Bytes → Bytes) where
  pub step-IsKept : (e : Event) (s : System) → Inv s → IsKept s → IsKept (step j quote e s)
  unfolding step accept_node handle_ping end_node new_node
  step-IsKept (accepts reg now) s i v = accepted-IsRegistry v (new_node reg now)
  step-IsKept (reads p raw now) s i v = if_rule IsKept s v (can_read p s) (
      with_node_rule IsKept s v p (λ n. after_message p n now (on_message j p n raw s.coord))
        λ n e.
          let (kept, there) = on_message-Registered j p n raw s v e in
          after_message-IsKept p n now (on_message j p n raw s.coord) s kept there
            (on_message-Fits j p n raw s i e).1)
  step-IsKept (pings p app_data now) s i v = if_rule IsKept s v (can_read p s) (
      with_node_rule IsKept s v p (λ n s. record s { coord = handle_ping p n app_data now s.coord })
        λ n e.
          written-IsRegistry v p n (record n { last_seen = now; deadline = now + node_drop_after })
            e refl)
  step-IsKept (hangs_up p) s i v = if_rule IsKept s v (s.looping p) (
      with_node_rule IsKept s v p
        (λ n s. record s { coord = end_node p n s.coord; looping = update s.looping p false })
        λ n e.
          ended-IsRegistry v p n (update s.looping p false) e
            (λ q other. update-ne s.looping p false q other))
  step-IsKept (ticks now) s i v = prune-Registered now s v
  step-IsKept (requests r request_id) s i v =
      started-IsKept (begin_offer j quote r request_id s.coord) s v
  step-IsKept (enters ch) s i v =
      with_handler_rule IsKept s v ch (λ h. with_node h.offer.node (enter_step ch h h.phase))
        λ h e.
          with_node_rule IsKept s v h.offer.node (enter_step ch h h.phase)
            (λ n f. enter_step-IsKept ch h s v h.phase n f)
  step-IsKept (forwards ch wrote) s i v =
      with_handler_rule IsKept s v ch (λ h. forward_step j ch h h.phase wrote)
        (λ h e. forward_step-IsKept ch h s v j h.phase wrote)
  step-IsKept (receives ch now) s i v =
      with_handler_rule IsKept s v ch
        (λ h s. receive_step j ch h h.phase now (s.coord.buffers ch) s)
        (λ h e. receive_step-IsKept ch h s v j h.phase now (s.coord.buffers ch))
  step-IsKept (times_out ch) s i v =
      with_handler_rule IsKept s v ch (λ h. time_out_step ch h h.phase)
        (λ h e. time_out_step-IsKept ch h s v h.phase)
  step-IsKept (cleans_up ch) s i v =
      with_handler_rule IsKept s v ch (λ h. with_node h.offer.node (clean_up_step ch h h.phase))
        λ h e.
          with_node_rule IsKept s v h.offer.node (clean_up_step ch h h.phase)
            (λ n f. clean_up_step-IsKept ch h s v h.phase n f)

  run-IsKept : (es : List Event) (s : System) → Inv s → IsKept s → IsKept (run j quote es s)
  unfolding run
  run-IsKept [] s i v = v
  run-IsKept (e ∷ es) s i v =
      run-IsKept es (step j quote e s) (step-Inv j quote e s i) (step-IsKept e s i v)

  -- After any sequence of events, an id that is registered leads to a node with that id, whose read
  -- loop is running and whose connection is open.
  pub run-registered :
      (es : List Event) (id : Bytes) (p : ℕ)
      → let s = run j quote es start in
        lookup id s.coord.nodes ≡ some p
        → (n : Node) × (s.coord.heap p ≡ some n)
          × (n.id ≡ id)
          × (s.looping p ≡ true)
          × (s.coord.closed p ≡ false)
  run-registered es id p found =
      let w = (run-IsKept es start start-Inv start-Registered).live id p found in
      (w.node, w.at_p, w.same_id, w.loops, w.opened)
