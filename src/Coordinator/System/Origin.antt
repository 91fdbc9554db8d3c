-- ===== src/Coordinator/System/Origin.antt =====
-- Where the responses of `handleOffer` come from.
use rtc_bridge.Prelude.{
  Option, ap, inl, inr, none, some, some_injective, subst, update, update_cases, ℕ, ◌>>=◌, ◌∙◌, ◌≡◌,
  ◌⊎◌,
}
pub mod Steps
use rtc_bridge.Protocol.Messages.{AnswerMsg}
use rtc_bridge.Wire.{Codec}
use rtc_bridge.Coordinator.Relay.{Response, Offer, bad_gateway, gateway_timeout}
use rtc_bridge.Coordinator.System.{System, Handler, Phase, created, finished, start}

-- `Reads p ans` says that the answer has been read from the node `p`.
module _ (j : Codec) (Reads : ℕ → AnswerMsg → Type 0) where
  -- The responses that a call with this offer may get.
  abbrev pub IsResponse : Offer → Response → Type 0
  IsResponse o r =
      (r ≡ bad_gateway)
      ⊎ (r ≡ gateway_timeout)
      ⊎ ((ans : AnswerMsg) × Reads o.node ans
          × (ans.request_id ≡ o.request_id)
          × (r ≡ record { status = 200; body = j.encode_raw ans.answer }))

  -- An answer in a channel has been read from the node of the channel's call, and a call has finished
  -- with one of its responses.
  pub record IsOriginal (buffers : ℕ → Option AnswerMsg) (handlers : ℕ → Option Handler)
      : Type 0 where
    pub from_node :
        (ch : ℕ) (ans : AnswerMsg) (h : Handler)
        → buffers ch ≡ some ans
        → handlers ch ≡ some h
        → Reads h.offer.node ans
    pub responded :
        (ch : ℕ) (h : Handler) (r : Response)
        → handlers ch ≡ some h
        → h.phase ≡ finished r
        → IsResponse h.offer r

  abbrev pub Origin : System → Type 0
  Origin s = IsOriginal s.coord.buffers s.handlers

  pub start-Origin : Origin start
  unfolding start
  start-Origin = record { from_node = λ ch ans h e. cc; responded = λ ch h r e. cc }

  module _ {buffers : ℕ → Option AnswerMsg} {handlers : ℕ → Option Handler}
      (v : IsOriginal buffers handlers) where
    pub later_phase-IsOriginal :
        (ch : ℕ) (h : Handler) (phase : Phase)
        → handlers ch ≡ some h
        → ((r : Response) → phase ≡ finished r → IsResponse h.offer r)
        → IsOriginal buffers (update handlers ch (some (record h { phase = phase })))
    later_phase-IsOriginal ch h phase at_ch final = record {
      from_node = λ d ans k e f.
          elim (update_cases handlers ch (some (record h { phase = phase })) d f) [
            | inl (same, it) ↦
                let old = v.from_node d ans h e (rw (← same) at_ch) in
                subst (λ (k : Handler). Reads k.offer.node ans) (some_injective it) old
            | inr (other, before) ↦ v.from_node d ans k e before
          ];
      responded = λ d k r e f.
          elim (update_cases handlers ch (some (record h { phase = phase })) d e) [
            | inl (same, it) ↦
                let is = some_injective it in
                subst (λ (k : Handler). IsResponse k.offer r) is
                  (final r (ap (λ (k : Handler). k.phase) is ∙ f))
            | inr (other, before) ↦ v.responded d k r before f
          ];
    }

    pub drained-IsOriginal : (ch : ℕ) → IsOriginal (update buffers ch none) handlers
    drained-IsOriginal ch = record {
      from_node = λ d ans h e f. elim (update_cases buffers ch none d e) [
        | inl (same, it) ↦ cc
        | inr (other, before) ↦ v.from_node d ans h before f
      ];
      responded = v.responded;
    }

    pub answered-IsOriginal :
        (p ch : ℕ) (ans : AnswerMsg)
        → Reads p ans
        → ((h : Handler) → handlers ch ≡ some h → h.offer.node ≡ p)
        → IsOriginal (update buffers ch (some ans)) handlers
    answered-IsOriginal p ch ans read same_node = record {
      from_node = λ d a h e f. elim (update_cases buffers ch (some ans) d e) [
        | inl (same, it) ↦
            let node : h.offer.node ≡ p = same_node h (rw same f) in
            subst (Reads h.offer.node) (some_injective it) (rw node read)
        | inr (other, before) ↦ v.from_node d a h before f
      ];
      responded = v.responded;
    }

    pub new_handler-IsOriginal :
        (next : ℕ) (o : Offer)
        → buffers next ≡ none
        → IsOriginal buffers (update handlers next (some (record { offer = o; phase = created })))
    new_handler-IsOriginal next o empty = record {
      from_node = λ d ans k e f. elim (update_cases handlers next _ d f) [
        | inl (same, it) ↦ cc (same, e, empty)
        | inr (other, before) ↦ v.from_node d ans k e before
      ];
      responded = λ d k r e f. elim (update_cases handlers next _ d e) [
        | inl (same, it) ↦ cc (ap (λ (k : Handler). k.phase) (some_injective it) ∙ f)
        | inr (other, before) ↦ v.responded d k r before f
      ];
    }

-- What has been read stays read.
pub Origin-mono :
    (j : Codec) (Reads Later : ℕ → AnswerMsg → Type 0) (s : System)
    → ((p : ℕ) (ans : AnswerMsg) → Reads p ans → Later p ans)
    → Origin j Reads s
    → Origin j Later s
Origin-mono j Reads Later s more v = record {
  from_node = λ ch ans h e f. more h.offer.node ans (v.from_node ch ans h e f);
  responded = λ ch h r e f. elim (v.responded ch h r e f) [
    | inl bad ↦ inl bad
    | inr (inl late) ↦ inr (inl late)
    | inr (inr (ans, read, id, is)) ↦ inr (inr (ans, more h.offer.node ans read, id, is))
  ];
}
