-- ===== src/Coordinator/System/Refine/Run.antt =====
-- A run of the coordinator, as a run of the broker.
use rtc_bridge.Prelude.{
  Bytes, List, Option, Star-trans, [], inl, inr, lookup, none, one_step, refl, some, subst, sym, ℕ,
  ◌∷◌,
}
use rtc_bridge.Prelude.{here}
use rtc_bridge.Protocol.Messages.{AnswerMsg}
use rtc_bridge.Wire.{Codec}
use rtc_bridge.Coordinator.System.{System, start, step, Event, reads, run}
use rtc_bridge.Coordinator.System.Invariant.{Inv, start-Inv}
use rtc_bridge.Coordinator.System.Invariant.Steps.{step-Inv}
use rtc_bridge.Coordinator.System.Origin.{Origin, start-Origin, Origin-mono}
use rtc_bridge.Coordinator.System.Origin.Steps.{Provides, step-Origin}
use rtc_bridge.Coordinator.Broker.{IsSaid, idle, says, Reach}
use rtc_bridge.Coordinator.System.Refine.{broker}
use rtc_bridge.Coordinator.System.Refine.Steps.{step-Follows}

-- What the answer read in an event adds.
abbrev with_heard : ℕ → Option AnswerMsg → List (ℕ × AnswerMsg) → List (ℕ × AnswerMsg)
with_heard p none said = said
with_heard p (some ans) said = (p, ans) ∷ said

abbrev hears : Codec → Event → List (ℕ × AnswerMsg) → List (ℕ × AnswerMsg)
hears j (reads p raw now) said = with_heard p (j.decode_answer raw) said
hears j _ said = said

with_heard-Reach :
    (encode : Bytes → Bytes) (p : ℕ) (o : Option AnswerMsg) (said : List (ℕ × AnswerMsg))
    (s : System)
    → Reach encode (broker s said) (broker s (with_heard p o said))
with_heard-Reach encode p none said s = here
with_heard-Reach encode p (some ans) said s = one_step (says p ans refl)

hears-Reach :
    (j : Codec) (e : Event) (said : List (ℕ × AnswerMsg)) (s : System)
    → Reach j.encode_raw (broker s said) (broker s (hears j e said))
hears-Reach j (reads p raw now) said s =
    with_heard-Reach j.encode_raw p (j.decode_answer raw) said s
hears-Reach j _ said s = here

with_heard-IsSaid :
    (q : ℕ) (o : Option AnswerMsg) (said : List (ℕ × AnswerMsg)) (p : ℕ) (ans : AnswerMsg)
    → IsSaid said p ans
    → IsSaid (with_heard q o said) p ans
with_heard-IsSaid q none said p ans h = h
with_heard-IsSaid q (some x) said p ans h = inr h

hears-IsSaid :
    (j : Codec) (e : Event) (said : List (ℕ × AnswerMsg)) (p : ℕ) (ans : AnswerMsg)
    → IsSaid said p ans
    → IsSaid (hears j e said) p ans
hears-IsSaid j (reads q raw now) said p ans h =
    with_heard-IsSaid q (j.decode_answer raw) said p ans h
hears-IsSaid j _ said p ans h = h

hears-Provides :
    (j : Codec) (e : Event) (said : List (ℕ × AnswerMsg)) → Provides j (IsSaid (hears j e said)) e
hears-Provides j (reads p raw now) said =
    λ ans e. subst (λ o. IsSaid (with_heard p o said) p ans) (sym e) (inl refl)
hears-Provides j _ said = tt

module _ (j : Codec) where
  -- What has been said after these events.
  abbrev pub heard : List Event → List (ℕ × AnswerMsg) → List (ℕ × AnswerMsg)
  heard [] said = said
  heard (e ∷ es) said = heard es (hears j e said)

  run-Reach :
      (quote : Bytes → Bytes) (es : List Event) (s : System) (said : List (ℕ × AnswerMsg))
      → Inv s
      → Origin j (IsSaid said) s
      → Reach j.encode_raw (broker s said) (broker (run j quote es s) (heard es said))
  unfolding run
  run-Reach quote [] s said i v = here
  run-Reach quote (e ∷ es) s said i v =
      let now = hears j e said in
      let v' = Origin-mono j (IsSaid said) (IsSaid now) s (hears-IsSaid j e said) v in
      Star-trans (hears-Reach j e said s) (
        Star-trans (step-Follows j now quote e s i v') (
          run-Reach quote es (step j quote e s) now (step-Inv j quote e s i)
            (step-Origin j quote (IsSaid now) e s i (hears-Provides j e said) v')))

-- The coordinator implements the broker: after any sequence of events from the start, an idle broker
-- can reach what the clients and nodes see of the coordinator - the node of each registered id, and
-- for each call whether it waits and what its response is -, with `said` being the answers that the
-- read messages decode to, each with the node it was read from. A step of the broker puts an id in
-- the table or takes one out, notes an answer of a node, opens a call for a node that is in the
-- table, gives a waiting call what its own node has answered to its request id, or ends a waiting
-- call with 502 or 504; so a call never changes its offer, and never its response.
pub run-broker :
    (j : Codec) (quote : Bytes → Bytes) (es : List Event)
    → Reach j.encode_raw idle (broker (run j quote es start) (heard j es []))
unfolding start lookup
run-broker j quote es = run-Reach j quote es start [] start-Inv (start-Origin j (IsSaid []))
