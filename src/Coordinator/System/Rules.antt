-- ===== src/Coordinator/System/Rules.antt =====
-- How to prove something of a step: in every state that it can lead to.
use rtc_bridge.Prelude.{Bool, Option-cases, if_cases, if◌then◌else◌, inl, inr, some, ℕ, ◌≡◌}
use rtc_bridge.Coordinator.State.{Node}
use rtc_bridge.Coordinator.System.{System, Handler, with_node, with_handler}

module _ (P : System → Type 0) (s : System) (unchanged : P s) where
  pub with_node_rule :
      (p : ℕ) (f : Node → System → System)
      → ((n : Node) → s.coord.heap p ≡ some n → P (f n s))
      → P (with_node p f s)
  with_node_rule p f each = elim (Option-cases (s.coord.heap p)) [
    | inl e ↦ rw (e, with_node) unchanged
    | inr (n, e) ↦ rw (e, with_node) (each n e)
  ]

  pub with_handler_rule :
      (ch : ℕ) (f : Handler → System → System)
      → ((h : Handler) → s.handlers ch ≡ some h → P (f h s))
      → P (with_handler ch f s)
  with_handler_rule ch f each = elim (Option-cases (s.handlers ch)) [
    | inl e ↦ rw (e, with_handler) unchanged
    | inr (h, e) ↦ rw (e, with_handler) (each h e)
  ]

  pub if_rule : (b : Bool) {t : System} → P t → P (if b then t else s)
  if_rule b changed = if_cases P b (λ _. changed) (λ _. unchanged)

-- A step of a handler or a node that is there.
pub with_handler_at :
    (s : System) (ch : ℕ) (h : Handler) (f : Handler → System → System)
    → s.handlers ch ≡ some h
    → with_handler ch f s ≡ f h s
with_handler_at s ch h f e = rw (e, with_handler)

pub with_node_at :
    (s : System) (p : ℕ) (n : Node) (f : Node → System → System)
    → s.coord.heap p ≡ some n
    → with_node p f s ≡ f n s
with_node_at s p n f e = rw (e, with_node)
