-- ===== src/Coordinator/System/Invariant/Changes.antt =====
-- Which changes of the pending maps, the channels and the handlers keep them consistent.
use rtc_bridge.Prelude.{
  Bool-cases, Bytes, Option, Option-cases, arith, bytes_eq_iff, delete, false, inl, inr, lookup,
  lookup-delete, none, some, subst, suc, update, update-ne, update_cases, ℕ, ◌==◌, ◌≡◌, ◌≢◌,
}
use rtc_bridge.Protocol.Messages.{AnswerMsg}
use rtc_bridge.Coordinator.State.{Node}
use rtc_bridge.Coordinator.Relay.{Offer}
use rtc_bridge.Coordinator.System.{Handler, Phase, created}
use rtc_bridge.Coordinator.System.Invariant.{is_created, IsOwned, IsConsistent}

module _ {heap : ℕ → Option Node} {buffers : ℕ → Option AnswerMsg} {handlers : ℕ → Option Handler}
    {next : ℕ} (v : IsConsistent heap buffers handlers next) where
  -- A write to a node whose pending requests are all owned.
  pub write_node-IsConsistent :
      (p : ℕ) (n : Node)
      → ((r : Bytes) (ch : ℕ) → lookup r n.pending ≡ some ch → IsOwned buffers handlers p r ch)
      → IsConsistent (update heap p (some n)) buffers handlers next
  write_node-IsConsistent p n own = record {
    owned = λ q m r ch e f. elim (update_cases heap p (some n) q e) [
      | inl (same, it) ↦ subst (λ q. IsOwned buffers handlers q r ch) same (own r ch (ground arith))
      | inr (other, old) ↦ v.owned q m r ch old f
    ];
    matched = v.matched;
    unsent = v.unsent;
    fresh = v.fresh;
  }

  IsOwned-later_phase :
      (ch : ℕ) (h : Handler) (phase : Phase)
      → handlers ch ≡ some h
      → is_created phase ≡ false
      → (p : ℕ) (r : Bytes) (d : ℕ) → IsOwned buffers handlers p r d
      → IsOwned buffers (update handlers ch (some (record h { phase = phase }))) p r d
  IsOwned-later_phase ch h phase at_ch later p r d o = elim (Bool-cases (ch == d)) [
    | inl same ↦ record {
      handler = record h { phase = phase };
      is_handler = rw same;
      same_node = ground (arith, o.is_handler, o.same_node);
      same_id = ground (arith, o.is_handler, o.same_id);
      is_entered = later;
      is_empty = o.is_empty;
    }
    | inr other ↦ record {
      handler = o.handler;
      is_handler = rw other o.is_handler;
      same_node = o.same_node;
      same_id = o.same_id;
      is_entered = o.is_entered;
      is_empty = o.is_empty;
    }
  ]

  -- A call of `handleOffer` reaches a later phase.
  pub later_phase-IsConsistent :
      (ch : ℕ) (h : Handler) (phase : Phase)
      → handlers ch ≡ some h
      → is_created phase ≡ false
      → IsConsistent heap buffers (update handlers ch (some (record h { phase = phase }))) next
  later_phase-IsConsistent ch h phase at_ch later = record {
    owned = λ q m r d e f. IsOwned-later_phase ch h phase at_ch later q r d (v.owned q m r d e f);
    matched = λ d ans e.
        let (k, at_d, same_id) = v.matched d ans e in
        elim (Bool-cases (ch == d)) [
          | inl same ↦ (record h { phase = phase }, rw same, ground arith)
          | inr other ↦ (k, rw other at_d, same_id)
        ];
    unsent = λ d k e f. elim (update_cases handlers ch (some (record h { phase = phase })) d e) [
      | inl (same, it) ↦ ground arith
      | inr (other, old) ↦ v.unsent d k old f
    ];
    fresh = λ d le. ground (arith, v.fresh d le, v.fresh ch);
  }

  buffer-next : buffers next ≡ none
  buffer-next = elim (Option-cases (buffers next)) [
    | inl e ↦ e
    | inr (ans, e) ↦ let (h, at_next, _) = v.matched next ans e in cc (v.fresh next (omega arith))
  ]

  -- A new call of `handleOffer`.
  pub new_handler-IsConsistent :
      (o : Offer)
      → IsConsistent heap buffers
          (update handlers next (some (record { offer = o; phase = created })))
          (suc next)
  new_handler-IsConsistent o = record {
    owned = λ q m r d e f.
        let w = v.owned q m r d e f in
        record {
          handler = w.handler;
          is_handler = ground (arith, w.is_handler, v.fresh d);
          same_node = w.same_node;
          same_id = w.same_id;
          is_entered = w.is_entered;
          is_empty = w.is_empty;
        };
    matched = λ d ans e.
        let (k, at_d, same_id) = v.matched d ans e in (k, ground (arith, v.fresh d), same_id);
    unsent = λ d k e f. ground (arith, v.unsent d k, buffer-next);
    fresh = λ d le. ground (arith, v.fresh d);
  }

  -- The call whose channel is `ch` takes the answer.
  pub drained-IsConsistent : (ch : ℕ) → IsConsistent heap (update buffers ch none) handlers next
  drained-IsConsistent ch = record {
    owned = λ q m r d e f.
        let w = v.owned q m r d e f in
        record {
          handler = w.handler;
          is_handler = w.is_handler;
          same_node = w.same_node;
          same_id = w.same_id;
          is_entered = w.is_entered;
          is_empty = ground (arith, w.is_empty);
        };
    matched = λ d ans e. v.matched d ans (ground arith);
    unsent = λ d k e f. ground (arith, v.unsent d k);
    fresh = v.fresh;
  }

  owner_unique :
      {p q : ℕ} {r r' : Bytes} {d : ℕ}
      → IsOwned buffers handlers p r d
      → IsOwned buffers handlers q r' d
      → (p ≡ q) × (r ≡ r')
  owner_unique a b =
      let same : a.handler ≡ b.handler = cc (a.is_handler, b.is_handler) in
      (cc (same, a.same_node, b.same_node), cc (same, a.same_id, b.same_id))

  IsOwned-other_buffer :
      (ch : ℕ) (ans : AnswerMsg) (p : ℕ) (r : Bytes) (d : ℕ)
      → IsOwned buffers handlers p r d
      → ch ≢ d
      → IsOwned (update buffers ch (some ans)) handlers p r d
  IsOwned-other_buffer ch ans p r d o other = record {
    handler = o.handler;
    is_handler = o.is_handler;
    same_node = o.same_node;
    same_id = o.same_id;
    is_entered = o.is_entered;
    is_empty = rw (update-ne buffers ch (some ans) d other) o.is_empty;
  }

  -- An answer goes from the node `p` to the channel of its request, which is no longer pending.
  pub answered-IsConsistent :
      (p : ℕ) (n : Node) (ans : AnswerMsg) (ch : ℕ)
      → heap p ≡ some n
      → lookup ans.request_id n.pending ≡ some ch
      → IsConsistent
          (update heap p (some (record n { pending = delete ans.request_id n.pending })))
          (update buffers ch (some ans))
          handlers
          next
  answered-IsConsistent p n ans ch at_p waits =
      let w = v.owned p n ans.request_id ch at_p waits in
      record {
        owned = λ q m r d e f.
            elim (update_cases heap p
              (some (record n { pending = delete ans.request_id n.pending })) q e) [
                | inl (same, it) ↦
                    let left : lookup r (delete ans.request_id n.pending) ≡ some d = ground arith in
                    let old : lookup r n.pending ≡ some d =
                      ground (arith, lookup-delete ans.request_id r n.pending) in
                    let o = v.owned p n r d at_p old in
                    subst (λ q. IsOwned (update buffers ch (some ans)) handlers q r d) same
                      (IsOwned-other_buffer ch ans p r d o λ clash. ground (
                        arith,
                        owner_unique w (rw (← clash) at o),
                        lookup-delete ans.request_id r n.pending,
                        bytes_eq_iff ans.request_id r,
                      ))
                | inr (other, old) ↦
                    let o = v.owned q m r d old f in
                    IsOwned-other_buffer ch ans q r d o
                      λ clash. other (owner_unique w (rw (← clash) at o)).0
              ];
        matched = λ d a e. elim (update_cases buffers ch (some ans) d e) [
          | inl (same, it) ↦ (w.handler, rw (← same) w.is_handler, ground (arith, w.same_id))
          | inr (other, old) ↦ v.matched d a old
        ];
        unsent = λ d k e f.
            let other : ch ≢ d = λ same. ground (arith, w.is_handler, w.is_entered) in
            rw (update-ne buffers ch (some ans) d other) (v.unsent d k e f);
        fresh = v.fresh;
      }
