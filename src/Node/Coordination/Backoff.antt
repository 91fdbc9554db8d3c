-- ===== src/Node/Coordination/Backoff.antt =====
-- node/coord_client.go: the delays between the connections to a coordinator.
pub mod Bounds
mod Tests
use rtc_bridge.Float.{Float}
use rtc_bridge.Prelude.{
  All, Bool, List, [], ap, arith, false, if◌then◌else◌, leb, le→leb, refl, true, ℕ, ◌++◌, ◌∷◌, ◌≡◌,
  ◌≤◌, ◌⊎◌,
}

-- A pass of the loop of `runCoordinator`: how long the connection lasted in nanoseconds, whether
-- the context was cancelled when it ended or during the wait, and the random number of `nextBackoff`.
pub record Pass (F : Type 0) : Type 0 where
  pub lasted : ℕ
  pub cancelled : Bool
  pub cancelled_waiting : Bool
  pub random : F

abbrev pub backoff_reset_after : ℕ
backoff_reset_after = 30000000000

module _ {F : Type 0} (f : Float F) where
  abbrev pub backoff_initial : F
  backoff_initial = f.constant 1 1

  abbrev pub backoff_k : F
  backoff_k = f.constant 1 2

  abbrev pub backoff_max : F
  backoff_max = f.constant 60 1

  -- `nextBackoff`.
  unfoldable pub next_backoff : F → F → F
  next_backoff cur random =
      let one = f.constant 1 1 in
      let next = f.mul cur (f.add one (f.mul backoff_k (f.sub one (f.div cur backoff_max)))) in
      let jitter = f.add (f.constant 4 5) (f.mul (f.constant 2 5) random) in f.mul next jitter

  -- The delay of a pass, reset after a connection that lasted.
  abbrev pub delay_of : F → Pass F → F
  delay_of delay p = if leb backoff_reset_after p.lasted then backoff_initial else delay

  -- `time.Duration(delay * float64(time.Second))`.
  abbrev pub wait_of : F → ℕ
  wait_of delay = f.duration (f.mul delay (f.constant 1000000000 1))

  -- `runCoordinator` from a delay on: the nanoseconds that it waits, once per pass up to the end.
  unfoldable pub run_coordinator : F → List (Pass F) → List ℕ
  unfolding next_backoff
  run_coordinator delay [] = []
  run_coordinator delay (p ∷ passes) =
      let rest = run_coordinator (next_backoff (delay_of delay p) p.random) passes in
      if p.cancelled
      then []
      else (wait_of (delay_of delay p) ∷ (if p.cancelled_waiting then [] else rest))

  -- While the context is not cancelled, a connection that lasted 30 seconds or longer makes the loop
  -- start again: the waits are those up to it, then those of a loop that starts with it.
  pub run_coordinator-append :
      (delay : F) (passes : List (Pass F)) (p : Pass F) (rest : List (Pass F))
      → All (λ q. (q.cancelled ≡ false) × (q.cancelled_waiting ≡ false)) passes
      → backoff_reset_after ≤ p.lasted
      → run_coordinator delay (passes ++ p ∷ rest)
        ≡ run_coordinator delay passes ++ run_coordinator backoff_initial (p ∷ rest)
  unfolding run_coordinator
  run_coordinator-append delay [] p rest h long = rw (le→leb backoff_reset_after p.lasted long) refl
  run_coordinator-append delay (q ∷ passes) p rest h long =
      rw (h.0.0, h.0.1)
        (ap (◌∷◌ (wait_of (delay_of delay q))) (
          run_coordinator-append (next_backoff (delay_of delay q) q.random) passes p rest h.1 long))

  -- When the context is cancelled, at the end of a connection or during a wait, no pass follows.
  pub run_coordinator-cancelled :
      (delay : F) (p : Pass F) (passes rest : List (Pass F))
      → (p.cancelled ≡ true) ⊎ (p.cancelled_waiting ≡ true)
      → run_coordinator delay (p ∷ passes) ≡ run_coordinator delay (p ∷ rest)
  unfolding run_coordinator
  run_coordinator-cancelled delay p passes rest h = ground (arith, h)
