-- ===== src/Prelude/Closure.antt =====
-- The states that steps of a relation lead to.
module _ {ℓ κ} {A : Type ℓ} where
  pub data Star (R : A → A → Type κ) (a : A) : A → Type (ℓ ⊔ κ) where
    here : Star R a a
    later : {b c : A} → Star R a b → R b c → Star R a c

  module _ {R : A → A → Type κ} where
    pub Star-trans : {a b c : A} → Star R a b → Star R b c → Star R a c
    Star-trans p here = p
    Star-trans p (later q s) = later (Star-trans p q) s

    pub one_step : {a b : A} → R a b → Star R a b
    one_step s = later here s

    -- What every step keeps.
    pub Star-keeps {ν} :
        (P : A → Type ν) → ((a b : A) → R a b → P a → P b) → {a b : A} → Star R a b → P a → P b
    Star-keeps P each here v = v
    Star-keeps P each (later {b} {c} p s) v = each b c s (Star-keeps P each p v)
