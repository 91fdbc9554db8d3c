-- ===== src/Coordinator/System/Exchange.antt =====
-- A whole exchange, and a timeout, step by step.
use rtc_bridge.Prelude.{
  Bytes, [], ap, arith, bytes_eq_iff, bytes_eq_refl, delete, false, inr, insert, lookup,
  lookup-delete, lookup-insert, none, refl, some, suc, true, update, update_self, ℕ, ◌+◌, ◌∙◌, ◌∷◌,
  ◌≡◌,
}
use rtc_bridge.Protocol.Messages.{AnswerMsg, Envelope, msg_answer}
use rtc_bridge.Wire.{Codec}
use rtc_bridge.Coordinator.State.{Node, text_frame, node_drop_after}
use rtc_bridge.Coordinator.Relay.{
  Request, Offer, begin_offer, enter_pending, forward_offer, take_answer, offer_msg, next_read,
  keep_reading, on_message, on_answer, send_answer, leave_pending, gateway_timeout,
}
use rtc_bridge.Coordinator.System.{
  System, Handler, created, entered, forwarded, finished, step, reads, requests, started, enters,
  forwards, receives, times_out, cleans_up, run, enter_step, forward_step, receive_step,
  time_out_step, clean_up_step, after_message, set_phase,
}

-- A request that finds its node starts a call.
pub step-requests :
    (j : Codec) (quote : Bytes → Bytes) (s : System) (r : Request) (o : Offer) (request_id : Bytes)
    → begin_offer j quote r request_id s.coord ≡ inr o
    → step j quote (requests r request_id) s ≡ record s {
      handlers = update s.handlers s.next (some (record { offer = o; phase = created }));
      next = suc s.next;
    }
unfolding step started
step-requests j quote s r o request_id e = rw (step, e) refl

module _ (j : Codec) (quote : Bytes → Bytes) (s : System) (ch : ℕ) (h : Handler) where
  step-enters :
      (n : Node)
      → s.handlers ch ≡ some h
      → h.phase ≡ created
      → s.coord.heap h.offer.node ≡ some n
      → step j quote (enters ch) s ≡ set_phase ch h entered (enter_pending ch h.offer n s.coord) s
  unfolding step enter_step
  step-enters n at_ch phase at_p = ground arith

  step-forwards :
      s.handlers ch ≡ some h
      → h.phase ≡ entered
      → step j quote (forwards ch true) s
        ≡ set_phase ch h forwarded (forward_offer j h.offer s.coord) s
  unfolding step forward_step
  step-forwards at_ch phase = ground arith

  step-receives :
      (now : ℕ) (ans : AnswerMsg)
      → s.handlers ch ≡ some h
      → h.phase ≡ forwarded
      → s.coord.buffers ch ≡ some ans
      → step j quote (receives ch now) s ≡ (
          let (c, response) = take_answer j ch ans now s.coord in
          set_phase ch h (finished response) c s)
  unfolding step receive_step
  step-receives now ans at_ch phase full = ground arith

step-reads_answer :
    (j : Codec) (quote : Bytes → Bytes) (s : System) (p : ℕ) (n : Node) (raw : Bytes) (now : ℕ)
    (env : Envelope) (ans : AnswerMsg) (ch : ℕ)
    → s.looping p ≡ true
    → s.coord.closed p ≡ false
    → s.coord.heap p ≡ some n
    → j.decode_envelope raw ≡ some env
    → env.kind ≡ msg_answer
    → j.decode_answer raw ≡ some ans
    → lookup ans.request_id n.pending ≡ some ch
    → s.coord.buffers ch ≡ none
    → let m = record n { pending = delete ans.request_id n.pending } in
      step j quote (reads p raw now) s ≡ record s {
        coord = next_read p m now (record s.coord {
          heap = update s.coord.heap p (some m);
          buffers = update s.coord.buffers ch (some ans);
        });
      }
unfolding step after_message on_message on_answer send_answer
step-reads_answer j quote s p n raw now env ans ch loops opened at_p e kind f waits empty =
    ground (arith, bytes_eq_iff env.kind msg_answer)

-- The object of the node while the call waits, and after its answer has been read.
abbrev waiting_node : ℕ → Offer → Node → Node
waiting_node ch o n = record n { pending = insert o.request_id ch n.pending }

abbrev answered_node : ℕ → Offer → AnswerMsg → Node → Node
answered_node ch o ans n = record n {
  pending = delete ans.request_id (insert o.request_id ch n.pending);
}

-- The call after its offer has been written, and after the answer has been read.
abbrev forwarded_state : Codec → ℕ → Handler → Node → System → System
forwarded_state j ch h n s =
    let c = enter_pending ch h.offer n s.coord in
    set_phase ch (record h { phase = entered }) forwarded (forward_offer j h.offer c)
      (set_phase ch h entered c s)

abbrev answered_state : Codec → ℕ → Handler → Node → AnswerMsg → ℕ → System → System
answered_state j ch h n ans now s =
    let t = forwarded_state j ch h n s in
    record t {
      coord = next_read h.offer.node (answered_node ch h.offer ans n) now (record t.coord {
        heap = update t.coord.heap h.offer.node (some (answered_node ch h.offer ans n));
        buffers = update t.coord.buffers ch (some ans);
      });
    }

run-forwarded :
    (j : Codec) (quote : Bytes → Bytes) (s : System) (ch : ℕ) (h : Handler) (n : Node)
    → s.handlers ch ≡ some h
    → h.phase ≡ created
    → s.coord.heap h.offer.node ≡ some n
    → run j quote (enters ch ∷ forwards ch true ∷ []) s ≡ forwarded_state j ch h n s
unfolding run
run-forwarded j quote s ch h n at_ch phase at_p =
    let entry = set_phase ch h entered (enter_pending ch h.offer n s.coord) s in
    ap (step j quote (forwards ch true)) (step-enters j quote s ch h n at_ch phase at_p)
    ∙ step-forwards j quote entry ch (record h { phase = entered })
        (update_self s.handlers ch (some (record h { phase = entered }))) refl

-- The offer has then been written to the connection of its node.
pub sent-forwarded :
    (j : Codec) (quote : Bytes → Bytes) (s : System) (ch : ℕ) (h : Handler) (n : Node)
    → s.handlers ch ≡ some h
    → h.phase ≡ created
    → s.coord.heap h.offer.node ≡ some n
    → (run j quote (enters ch ∷ forwards ch true ∷ []) s).coord.sent
      ≡ (h.offer.node, text_frame (j.encode_offer (offer_msg h.offer))) ∷ s.coord.sent
unfolding enter_pending forward_offer
sent-forwarded j quote s ch h n at_ch phase at_p =
    ap (λ t. t.coord.sent) (run-forwarded j quote s ch h n at_ch phase at_p)

run-answered :
    (j : Codec) (quote : Bytes → Bytes) (s : System) (ch : ℕ) (h : Handler) (n : Node) (raw : Bytes)
    (env : Envelope) (ans : AnswerMsg) (now : ℕ)
    → s.coord.buffers ch ≡ none
    → s.looping h.offer.node ≡ true
    → s.coord.closed h.offer.node ≡ false
    → j.decode_envelope raw ≡ some env
    → env.kind ≡ msg_answer
    → j.decode_answer raw ≡ some ans
    → ans.request_id ≡ h.offer.request_id
    → step j quote (reads h.offer.node raw now) (forwarded_state j ch h n s)
      ≡ answered_state j ch h n ans now s
unfolding enter_pending forward_offer
run-answered j quote s ch h n raw env ans now empty loops opened e kind f id =
    let pending = (waiting_node ch h.offer n).pending in
    let waits : lookup ans.request_id pending ≡ some ch = ground (
      arith,
      lookup-insert h.offer.request_id ans.request_id ch n.pending,
      bytes_eq_iff h.offer.request_id ans.request_id,
    ) in
    step-reads_answer j quote (forwarded_state j ch h n s) h.offer.node (waiting_node ch h.offer n)
      raw now env ans ch loops opened
      (update_self s.coord.heap h.offer.node (some (waiting_node ch h.offer n))) e kind f waits
      empty

-- If nothing comes between, a call of `handleOffer` that has found its node forwards the offer, and
-- when the node answers with the request id the call responds with status 200 and the answer's JSON;
-- the exchange is recorded once, and the request is no longer pending at the node.
pub run-exchange :
    (j : Codec) (quote : Bytes → Bytes) (s : System) (ch : ℕ) (h : Handler) (n : Node) (raw : Bytes)
    (env : Envelope) (ans : AnswerMsg) (now later : ℕ)
    → s.handlers ch ≡ some h
    → h.phase ≡ created
    → s.coord.buffers ch ≡ none
    → s.coord.heap h.offer.node ≡ some n
    → s.looping h.offer.node ≡ true
    → s.coord.closed h.offer.node ≡ false
    → j.decode_envelope raw ≡ some env
    → env.kind ≡ msg_answer
    → j.decode_answer raw ≡ some ans
    → ans.request_id ≡ h.offer.request_id
    → let p = h.offer.node in
      let events = enters ch ∷ forwards ch true ∷ reads p raw now ∷ receives ch later ∷ [] in
      let t = run j quote events s in
      (t.handlers ch
        ≡ some (record h {
          phase = finished (record { status = 200; body = j.encode_raw ans.answer });
        }))
      × (t.coord.sent ≡ (p, text_frame (j.encode_offer (offer_msg h.offer))) ∷ s.coord.sent)
      × (t.coord.exchanges ≡ later ∷ s.coord.exchanges)
      × (t.coord.buffers ch ≡ none)
      × ((m : Node) × (t.coord.heap p ≡ some m) × (lookup h.offer.request_id m.pending ≡ none))
unfolding run enter_pending forward_offer take_answer next_read
run-exchange j quote s ch h n raw env ans now later at_ch phase empty at_p loops opened e kind f
      id =
    let p = h.offer.node in
    let before = forwarded_state j ch h n s in
    let after = answered_state j ch h n ans now s in
    let h₂ : Handler = record h { phase = forwarded } in
    let fourth =
      step-receives j quote after ch h₂ later ans
        (update_self (update s.handlers ch (some (record h { phase = entered }))) ch (some h₂)) refl
        (update_self before.coord.buffers ch (some ans)) in
    let third = run-answered j quote s ch h n raw env ans now empty loops opened e kind f id in
    let whole =
      ap (λ t. step j quote (receives ch later) (step j quote (reads p raw now) t))
        (run-forwarded j quote s ch h n at_ch phase at_p)
      ∙ ap (step j quote (receives ch later)) third
      ∙ fourth in
    rw whole (
      update_self after.handlers ch _,
      refl,
      refl,
      update_self after.coord.buffers ch none,
      (
        record (answered_node ch h.offer ans n) { deadline = now + node_drop_after },
        update_self (update before.coord.heap p (some (answered_node ch h.offer ans n))) p
            (some (record (answered_node ch h.offer ans n) { deadline = now + node_drop_after })),
        lookup-delete ans.request_id h.offer.request_id (waiting_node ch h.offer n).pending
            ∙ (ground (arith, bytes_eq_iff ans.request_id h.offer.request_id)),
      ),
    )

-- A call that waits and times out responds with status 504 and takes its request back: at the node
-- the request is no longer pending, and a late answer to it changes nothing.
pub run-timeout :
    (j : Codec) (quote : Bytes → Bytes) (s : System) (ch : ℕ) (h : Handler) (n : Node)
    (late : AnswerMsg)
    → s.handlers ch ≡ some h
    → h.phase ≡ forwarded
    → s.coord.heap h.offer.node ≡ some n
    → late.request_id ≡ h.offer.request_id
    → let t = run j quote (times_out ch ∷ cleans_up ch ∷ []) s in
      (t.handlers ch ≡ some (record h { phase = finished gateway_timeout }))
      × ((m : Node) × (t.coord.heap h.offer.node ≡ some m)
          × (lookup h.offer.request_id m.pending ≡ none)
          × (on_answer h.offer.node m late t.coord ≡ (t.coord, keep_reading)))
unfolding run step time_out_step clean_up_step leave_pending on_answer
run-timeout j quote s ch h n late at_ch phase at_p id =
    let m : Node = record n { pending = delete h.offer.request_id n.pending } in
    let gone : lookup h.offer.request_id m.pending ≡ none = ground (
      arith,
      lookup-delete h.offer.request_id h.offer.request_id n.pending,
      bytes_eq_refl h.offer.request_id,
    ) in
    (ground arith, (m, ground arith, gone, ground (arith, gone)))
