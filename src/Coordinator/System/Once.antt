-- ===== src/Coordinator/System/Once.antt =====
-- A call of `handleOffer` after its response.
use rtc_bridge.Prelude.{
  Bool, Bytes, List, Option, [], arith, false, inl, inr, refl, some, true, update, update-ne, ℕ,
  ◌∙◌, ◌∷◌, ◌≡◌, ◌≢◌, ◌⊎◌,
}
use rtc_bridge.Protocol.Messages.{AnswerMsg}
use rtc_bridge.Wire.{Codec}
use rtc_bridge.Coordinator.State.{Node, Coordinator}
use rtc_bridge.Coordinator.Registry.{end_node, handle_ping}
use rtc_bridge.Coordinator.Relay.{
  Response, Offer, begin_offer, Next, keep_reading, leave, stuck, on_message, gateway_timeout,
  bad_gateway,
}
use rtc_bridge.Coordinator.System.{
  System, Handler, Phase, created, entered, forwarded, failed, timed_out, finished, start, step,
  Event, accepts, reads, pings, hangs_up, ticks, requests, enters, forwards, receives, times_out,
  cleans_up, run, enter_step, forward_step, receive_step, time_out_step, clean_up_step,
  after_message, started, with_node, can_read,
}
use rtc_bridge.Coordinator.System.Rules.{with_node_rule, with_handler_rule, if_rule}
use rtc_bridge.Coordinator.System.Invariant.{Inv, start-Inv}
use rtc_bridge.Coordinator.System.Invariant.Steps.{step-Inv, run-Inv}

-- `k` is the local state of the call, which has answered with `r`.
module _ (ch : ℕ) (k : Handler) (r : Response) (is : k.phase ≡ finished r) where
  abbrev Keeps : System → Type 0
  Keeps s = s.handlers ch ≡ some k

  set_phase-Keeps :
      (d : ℕ) (h : Handler) (phase : Phase) (s : System)
      → Keeps s
      → s.handlers d ≡ some h
      → ((q : Response) → h.phase ≢ finished q)
      → update s.handlers d (some (record h { phase = phase })) ch ≡ some k
  set_phase-Keeps d h phase s keeps at_d busy =
      let other : d ≢ ch = λ same. busy r (cc (same, at_d, keeps, is)) in
      update-ne s.handlers d (some (record h { phase = phase })) ch other ∙ keeps

  module _ (d : ℕ) (h : Handler) (s : System) (at_d : s.handlers d ≡ some h) where
    enter_step-Keeps :
        (phase : Phase) (n : Node) → h.phase ≡ phase → Keeps s → Keeps (enter_step d h phase n s)
    unfolding enter_step
    enter_step-Keeps created n e keeps = set_phase-Keeps d h entered s keeps at_d (λ q f. cc (e, f))
    enter_step-Keeps _ n e keeps = keeps

    forward_step-Keeps :
        (j : Codec) (phase : Phase) (wrote : Bool)
        → h.phase ≡ phase
        → Keeps s
        → Keeps (forward_step j d h phase wrote s)
    unfolding forward_step
    forward_step-Keeps j entered true e keeps =
        set_phase-Keeps d h forwarded s keeps at_d (λ q f. cc (e, f))
    forward_step-Keeps j entered false e keeps =
        set_phase-Keeps d h failed s keeps at_d (λ q f. cc (e, f))
    forward_step-Keeps j _ wrote e keeps = keeps

    receive_step-Keeps :
        (j : Codec) (phase : Phase) (now : ℕ) (ans : Option AnswerMsg)
        → h.phase ≡ phase
        → Keeps s
        → Keeps (receive_step j d h phase now ans s)
    unfolding receive_step
    receive_step-Keeps j forwarded now (some ans) e keeps =
        set_phase-Keeps d h _ s keeps at_d (λ q f. cc (e, f))
    receive_step-Keeps j _ now _ e keeps = keeps

    time_out_step-Keeps :
        (phase : Phase) → h.phase ≡ phase → Keeps s → Keeps (time_out_step d h phase s)
    unfolding time_out_step
    time_out_step-Keeps forwarded e keeps =
        set_phase-Keeps d h timed_out s keeps at_d (λ q f. cc (e, f))
    time_out_step-Keeps _ e keeps = keeps

    clean_up_step-Keeps :
        (phase : Phase) (n : Node) → h.phase ≡ phase → Keeps s → Keeps (clean_up_step d h phase n s)
    unfolding clean_up_step
    clean_up_step-Keeps failed n e keeps =
        set_phase-Keeps d h (finished bad_gateway) s keeps at_d (λ q f. cc (e, f))
    clean_up_step-Keeps timed_out n e keeps =
        set_phase-Keeps d h (finished gateway_timeout) s keeps at_d (λ q f. cc (e, f))
    clean_up_step-Keeps _ n e keeps = keeps

  after_message-Keeps :
      (p : ℕ) (n : Node) (now : ℕ) (m : Coordinator × Next) (s : System)
      → Keeps s
      → Keeps (after_message p n now m s)
  unfolding after_message
  after_message-Keeps p n now (c, keep_reading) s keeps = ground arith
  after_message-Keeps p n now (c, leave) s keeps = keeps
  after_message-Keeps p n now (c, stuck) s keeps = keeps

  started-Keeps : (m : Response ⊎ Offer) (s : System) → Inv s → Keeps s → Keeps (started m s)
  unfolding started
  started-Keeps (inl response) s v keeps = keeps
  started-Keeps (inr o) s v keeps =
      let other : s.next ≢ ch = λ same. cc (same, keeps, v.fresh s.next (omega arith)) in
      update-ne s.handlers s.next _ ch other ∙ keeps

  step-Keeps :
      (j : Codec) (quote : Bytes → Bytes) (e : Event) (s : System)
      → Inv s
      → Keeps s
      → Keeps (step j quote e s)
  unfolding step
  step-Keeps j quote (accepts reg now) s v keeps = keeps
  step-Keeps j quote (reads p raw now) s v keeps = if_rule Keeps s keeps (can_read p s) (
      with_node_rule Keeps s keeps p (λ n. after_message p n now (on_message j p n raw s.coord))
        (λ n e. after_message-Keeps p n now (on_message j p n raw s.coord) s keeps))
  step-Keeps j quote (pings p app_data now) s v keeps = if_rule Keeps s keeps (can_read p s) (
      with_node_rule Keeps s keeps p
        (λ n s. record s { coord = handle_ping p n app_data now s.coord }) (λ n e. keeps))
  step-Keeps j quote (hangs_up p) s v keeps = if_rule Keeps s keeps (s.looping p) (
      with_node_rule Keeps s keeps p
        (λ n s. record s { coord = end_node p n s.coord; looping = update s.looping p false })
        (λ n e. keeps))
  step-Keeps j quote (ticks now) s v keeps = keeps
  step-Keeps j quote (requests r request_id) s v keeps =
      started-Keeps (begin_offer j quote r request_id s.coord) s v keeps
  step-Keeps j quote (enters d) s v keeps =
      with_handler_rule Keeps s keeps d (λ h. with_node h.offer.node (enter_step d h h.phase))
        λ h e.
          with_node_rule Keeps s keeps h.offer.node (enter_step d h h.phase)
            (λ n f. enter_step-Keeps d h s e h.phase n refl keeps)
  step-Keeps j quote (forwards d wrote) s v keeps =
      with_handler_rule Keeps s keeps d (λ h. forward_step j d h h.phase wrote)
        (λ h e. forward_step-Keeps d h s e j h.phase wrote refl keeps)
  step-Keeps j quote (receives d now) s v keeps =
      with_handler_rule Keeps s keeps d
        (λ h s. receive_step j d h h.phase now (s.coord.buffers d) s)
        (λ h e. receive_step-Keeps d h s e j h.phase now (s.coord.buffers d) refl keeps)
  step-Keeps j quote (times_out d) s v keeps =
      with_handler_rule Keeps s keeps d (λ h. time_out_step d h h.phase)
        (λ h e. time_out_step-Keeps d h s e h.phase refl keeps)
  step-Keeps j quote (cleans_up d) s v keeps =
      with_handler_rule Keeps s keeps d (λ h. with_node h.offer.node (clean_up_step d h h.phase))
        λ h e.
          with_node_rule Keeps s keeps h.offer.node (clean_up_step d h h.phase)
            (λ n f. clean_up_step-Keeps d h s e h.phase n refl keeps)

  run-Keeps :
      (j : Codec) (quote : Bytes → Bytes) (es : List Event) (s : System)
      → Inv s
      → Keeps s
      → Keeps (run j quote es s)
  unfolding run
  run-Keeps j quote [] s v keeps = keeps
  run-Keeps j quote (e ∷ es) s v keeps =
      run-Keeps j quote es (step j quote e s) (step-Inv j quote e s v)
        (step-Keeps j quote e s v keeps)

-- A caller gets one response: once a call of `handleOffer` has finished with a response, it is
-- finished with that response after any further events.
pub run-finished :
    (j : Codec) (quote : Bytes → Bytes) (es fs : List Event) (ch : ℕ) (k : Handler) (r : Response)
    → (run j quote es start).handlers ch ≡ some k
    → k.phase ≡ finished r
    → (run j quote fs (run j quote es start)).handlers ch ≡ some k
run-finished j quote es fs ch k r here is =
    run-Keeps ch k r is j quote fs (run j quote es start) (run-Inv j quote es start start-Inv) here
