-- ===== src/Coordinator/System/Invariant.antt =====
-- What holds of the pending maps, the channels and the handlers in every reachable state.
pub mod Changes
pub mod Steps
use rtc_bridge.Prelude.{
  Bool, Bytes, Option, Option-cases, arith, false, inl, inr, lookup, none, refl, some, true, ℕ, ◌≡◌,
  ◌≤◌,
}
use rtc_bridge.Protocol.Messages.{AnswerMsg}
use rtc_bridge.Coordinator.State.{Node}
use rtc_bridge.Coordinator.Relay.{Offer}
use rtc_bridge.Coordinator.System.{System, Handler, Phase, created, start}

abbrev pub is_created : Phase → Bool
is_created created = true
is_created _ = false

-- The channel `ch` belongs to a call of `handleOffer` that has sent the request `r` to the node `p`
-- or is about to, and nothing is in it.
pub record IsOwned (buffers : ℕ → Option AnswerMsg) (handlers : ℕ → Option Handler) (p : ℕ)
    (r : Bytes) (ch : ℕ) : Type 0 where
  pub handler : Handler
  pub is_handler : handlers ch ≡ some handler
  pub same_node : handler.offer.node ≡ p
  pub same_id : handler.offer.request_id ≡ r
  pub is_entered : is_created handler.phase ≡ false
  pub is_empty : buffers ch ≡ none

pub record IsConsistent (heap : ℕ → Option Node) (buffers : ℕ → Option AnswerMsg)
    (handlers : ℕ → Option Handler) (next : ℕ) : Type 0 where
  -- A pending request belongs to the call that waits for it.
  pub owned :
      (p : ℕ) (n : Node) (r : Bytes) (ch : ℕ)
      → heap p ≡ some n
      → lookup r n.pending ≡ some ch
      → IsOwned buffers handlers p r ch
  -- An answer in a channel has the request id of the channel's call.
  pub matched :
      (ch : ℕ) (ans : AnswerMsg)
      → buffers ch ≡ some ans
      → (h : Handler) × (handlers ch ≡ some h) × (h.offer.request_id ≡ ans.request_id)
  -- Before a call has entered its request its channel is empty.
  pub unsent :
      (ch : ℕ) (h : Handler) → handlers ch ≡ some h → is_created h.phase ≡ true → buffers ch ≡ none
  pub fresh : (ch : ℕ) → next ≤ ch → handlers ch ≡ none

abbrev pub Inv : System → Type 0
Inv s = IsConsistent s.coord.heap s.coord.buffers s.handlers s.next

pub start-Inv : Inv start
unfolding start
start-Inv = record {
  owned = λ p n r ch e. cc;
  matched = λ ch ans e. cc;
  unsent = λ ch h e. cc;
  fresh = λ ch e. refl;
}

-- The channel of the next call is empty.
pub next_channel : (s : System) → Inv s → s.coord.buffers s.next ≡ none
next_channel s i = elim (Option-cases (s.coord.buffers s.next)) [
  | inl e ↦ e
  | inr (ans, e) ↦ let (h, at, _) = i.matched s.next ans e in cc (i.fresh s.next (omega arith), at)
]
