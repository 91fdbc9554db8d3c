-- ===== src/Coordinator/System/Refine.antt =====
-- The running coordinator against the broker.
pub mod Steps
pub mod Run
use rtc_bridge.Prelude.{
  ==_iff, Bool-cases, Bytes, List, Map, Option, Star-trans, [], ap, delete, fun_ext, if_cases, inl,
  inr, insert, lookup, lookup-delete, lookup-insert, none, one_step, refl, some, sym, update, ℕ,
  ◌==◌, ◌∙◌, ◌∷◌, ◌≡◌, ◌⊎◌,
}
use rtc_bridge.Prelude.{here}
use rtc_bridge.Protocol.Messages.{AnswerMsg}
use rtc_bridge.Wire.{Codec}
use rtc_bridge.Coordinator.State.{Node, Coordinator}
use rtc_bridge.Coordinator.Registry.{is_stale, prune_entry, prune_entries, prune}
use rtc_bridge.Coordinator.Relay.{Response, Offer, bad_gateway, gateway_timeout}
use rtc_bridge.Coordinator.System.{
  System, Handler, Phase, created, entered, forwarded, failed, timed_out, finished,
}
use rtc_bridge.Coordinator.Broker.{
  Call, waits, has_response, Broker, set_id, IsSaid, Step, joins, leaves, opens, answers, gives_up,
  Reach,
}

-- What a caller sees of a call in a phase.
abbrev pub call_in : Offer → Phase → Call
call_in o (finished r) = has_response o r
call_in o _ = waits o

abbrev pub call_of : Option Handler → Option Call
call_of none = none
call_of (some h) = some (call_in h.offer h.phase)

abbrev pub view : Map ℕ → (ℕ → Option Handler) → List (ℕ × AnswerMsg) → Broker
view nodes handlers said = record {
  registered = λ id. lookup id nodes;
  calls = λ ch. call_of (handlers ch);
  said = said;
}

abbrev pub broker : System → List (ℕ × AnswerMsg) → Broker
broker s said = view s.coord.nodes s.handlers said

calls-update :
    (handlers : ℕ → Option Handler) (ch : ℕ) (h : Handler)
    → (λ d. call_of (update handlers ch (some h) d))
      ≡ update (λ d. call_of (handlers d)) ch (some (call_in h.offer h.phase))
calls-update handlers ch h =
    fun_ext
      λ d. elim (Bool-cases (ch == d)) [ inl e ↦ rw (update, e) refl | inr e ↦ rw (update, e) refl ]

module _ (encode : Bytes → Bytes) (said : List (ℕ × AnswerMsg)) where
  -- The table of nodes.
  pub insert-Reach :
      (nodes : Map ℕ) (handlers : ℕ → Option Handler) (id : Bytes) (p : ℕ)
      → Reach encode (view nodes handlers said) (view (insert id p nodes) handlers said)
  insert-Reach nodes handlers id p = one_step (
      joins id p (
        ap (λ f. record { registered = f; calls = λ ch. call_of (handlers ch); said = said })
          (fun_ext λ j. lookup-insert id j p nodes)))

  pub delete-Reach :
      (nodes : Map ℕ) (handlers : ℕ → Option Handler) (id : Bytes)
      → Reach encode (view nodes handlers said) (view (delete id nodes) handlers said)
  delete-Reach nodes handlers id = one_step (
      leaves id (
        ap (λ f. record { registered = f; calls = λ ch. call_of (handlers ch); said = said })
          (fun_ext λ j. lookup-delete id j nodes)))

  prune_entries-Reach :
      (now : ℕ) (entries : Map ℕ) (c : Coordinator) (handlers : ℕ → Option Handler)
      → Reach encode
          (view c.nodes handlers said)
          (view (prune_entries now entries c).nodes handlers said)
  unfolding prune_entries prune_entry
  prune_entries-Reach now [] c handlers = here
  prune_entries-Reach now ((id, p) ∷ entries) c handlers =
      Star-trans
        (if_cases
          (λ (c' : Coordinator).
            Reach encode (view c.nodes handlers said) (view c'.nodes handlers said))
          (is_stale now (c.heap p)) (λ _. delete-Reach c.nodes handlers id) (λ _. here))
        (prune_entries-Reach now entries (prune_entry now id p c) handlers)

  module _ (nodes : Map ℕ) (handlers : ℕ → Option Handler) (ch : ℕ) (h : Handler)
      (at_ch : handlers ch ≡ some h) where
    -- A call that goes on waiting.
    pub waiting-view :
        (phase : Phase)
        → call_in h.offer phase ≡ call_in h.offer h.phase
        → view nodes (update handlers ch (some (record h { phase = phase }))) said
          ≡ view nodes handlers said
    waiting-view phase same =
        ap (λ f. record { registered = λ id. lookup id nodes; calls = f; said = said })
          (fun_ext λ d. elim (Bool-cases (ch == d)) [
            | inl e ↦
                let old : handlers d ≡ some h = ap handlers (sym ((==_iff ch d).0 e)) ∙ at_ch in
                rw (update, e) (ap some same ∙ sym (ap call_of old))
            | inr e ↦ rw (update, e) refl
          ])

    waits-call :
        call_in h.offer h.phase ≡ waits h.offer → call_of (handlers ch) ≡ some (waits h.offer)
    waits-call waiting = ap call_of at_ch ∙ ap some waiting

    pub answers-Reach :
        (ans : AnswerMsg)
        → call_in h.offer h.phase ≡ waits h.offer
        → IsSaid said h.offer.node ans
        → ans.request_id ≡ h.offer.request_id
        → Reach encode (view nodes handlers said) (
            view nodes
              (update handlers ch (
                some (record h {
                  phase = finished (record { status = 200; body = encode ans.answer });
                })))
              said)
    answers-Reach ans waiting heard same = one_step (
        answers ch h.offer ans (waits-call waiting) heard same (
          ap (λ f. record { registered = λ id. lookup id nodes; calls = f; said = said })
            (calls-update handlers ch _)))

    pub gives_up-Reach :
        (r : Response)
        → call_in h.offer h.phase ≡ waits h.offer
        → (r ≡ bad_gateway) ⊎ (r ≡ gateway_timeout)
        → Reach encode
            (view nodes handlers said)
            (view nodes (update handlers ch (some (record h { phase = finished r }))) said)
    gives_up-Reach r waiting which = one_step (
        gives_up ch h.offer r (waits-call waiting) which (
          ap (λ f. record { registered = λ id. lookup id nodes; calls = f; said = said })
            (calls-update handlers ch _)))

  pub opens-Reach :
      (nodes : Map ℕ) (handlers : ℕ → Option Handler) (ch : ℕ) (o : Offer) (id : Bytes)
      → lookup id nodes ≡ some o.node
      → handlers ch ≡ none
      → Reach encode
          (view nodes handlers said)
          (view nodes (update handlers ch (some (record { offer = o; phase = created }))) said)
  opens-Reach nodes handlers ch o id found fresh = one_step (
      opens ch o id found (ap call_of fresh) (
        ap (λ f. record { registered = λ id. lookup id nodes; calls = f; said = said })
          (calls-update handlers ch _)))

  pub prune-Reach :
      (now : ℕ) (c : Coordinator) (handlers : ℕ → Option Handler)
      → Reach encode (view c.nodes handlers said) (view (prune now c).nodes handlers said)
  unfolding prune
  prune-Reach now c handlers = prune_entries-Reach now c.nodes c handlers
