-- ===== src/Prelude/Store.antt =====
-- Objects behind pointers: functions from numbers, written at one place at a time.

use Prim.Native.Nat.{ℕ}
use mathlib.Core.Path.{◌≡◌, refl}
use mathlib.Core.Logic.{◌≢◌, ◌⊎◌, inl, inr}
use native.Mathlib.Omega.{arith}
use rtc_bridge.Prelude.Tests.{◌==◌, ==_iff, Bool-cases, if◌then◌else◌}

abbrev pub update {ℓ} : {A : Type ℓ} → (ℕ → A) → ℕ → A → ℕ → A
update f k v j = if k == j then v else f j

module _ {ℓ} {A : Type ℓ} where
  pub update_self : (f : ℕ → A) (k : ℕ) (v : A) → update f k v k ≡ v
  update_self f k v = rw ((==_iff k k).1 refl)

  pub update-ne : (f : ℕ → A) (k : ℕ) (v : A) (j : ℕ) → k ≢ j → update f k v j ≡ f j
  update-ne f k v j h = ground (arith, ==_iff k j)

  -- What a read of an updated function shows.
  pub update_cases :
      (f : ℕ → A) (k : ℕ) (v : A) (j : ℕ) {x : A}
      → update f k v j ≡ x
      → ((k ≡ j) × (v ≡ x)) ⊎ ((k ≢ j) × (f j ≡ x))
  update_cases f k v j e = elim (Bool-cases (k == j)) [
    | inl same ↦ inl ((==_iff k j).0 same, rw same at e)
    | inr other ↦ inr ((λ h. cc (other, (==_iff k j).1 h)), rw other at e)
  ]
