-- ===== src/Prelude/FiniteMaps.antt =====
-- Go maps without an order of iteration: association lists up to what a lookup finds.
use mathlib.Core.Path.{◌≡◌, refl, sym, ◌∙◌}
use mathlib.Core.Logic.{◌≢◌, inl, inr}
use mathlib.Core.Option.{Option, none, some}
use mathlib.Core.List.{[], ◌∷◌, Perm}
use mathlib.Core.List.Perm
use mathlib.Core.Quot
use mathlib.Core.Quot.{Quot, Quot-set}
use native.Mathlib.Omega.{arith}
use mathlib.Core.Bool.{Bool}
use rtc_bridge.Prelude.Tests.{if◌then◌else◌, Bool-cases}
use rtc_bridge.Prelude.Strings.{Bytes, bytes_eq, bytes_eq_iff, bytes_eq_refl}
use rtc_bridge.Prelude.Maps.{
  Map, lookup, insert, delete, lookup-insert, lookup-delete, Distinct, Distinct-insert,
  Distinct-delete, some_injective,
}

module _ {ℓ} {V : Type ℓ} where
  -- Every key leads to the same value.
  abbrev pub SameLookups : Map V → Map V → Type ℓ
  SameLookups m n = (k : Bytes) → lookup k m ≡ lookup k n

  delete-none : (k : Bytes) (m : Map V) → lookup k m ≡ none → delete k m ≡ m
  unfolding delete lookup
  delete-none k [] e = refl
  delete-none k ((j, v) ∷ m) e = ground (arith, e, delete-none k m)

  perm-delete :
      (k : Bytes) (v : V) (m : Map V)
      → Distinct m
      → lookup k m ≡ some v
      → Perm ((k, v) ∷ delete k m) m
  unfolding lookup delete
  perm-delete k v [] d e = cc
  perm-delete k v ((j, w) ∷ m) d e = elim (Bool-cases (bytes_eq j k)) [
    | inl same ↦
        let key = (bytes_eq_iff j k).0 same in
        let value = some_injective (rw (same, lookup) at e) in
        rw (delete, same, delete-none k m (rw key at d.0), key, value) (Perm.refl ((k, v) ∷ m))
    | inr other ↦
        rw (delete, other)
          (Perm.trans (Perm.swap (j, w) (k, v) (delete k m))
            (Perm.cons (j, w) (perm-delete k v m d.1 (rw (other, lookup) at e))))
  ]

  -- Two maps that agree in every lookup have the same entries.
  pub same-perm : (m n : Map V) → Distinct m → Distinct n → SameLookups m n → Perm m n
  unfolding lookup
  same-perm [] [] d e same = Perm.nil
  same-perm [] ((k, v) ∷ n) d e same =
      let read = same k in absurd (ground (arith, read, bytes_eq_refl k))
  same-perm ((k, v) ∷ m) n d e same =
      let found : lookup k n ≡ some v = sym (same k) ∙ rw (bytes_eq_refl k) refl in
      Perm.trans
        (Perm.cons (k, v)
          (same-perm m (delete k n) d.1 (Distinct-delete k n e)
            λ j. ground (arith, same j, d.0, lookup-delete k j n, bytes_eq_iff k j)))
        (perm-delete k v n e found)

module _ {ℓ} where
  -- A Go map, with the order of its entries forgotten.
  abbrev pub Unordered : Type ℓ → Type ℓ
  Unordered V = Quot {α = (m : Map V) × Distinct m} (λ m n. SameLookups m.0 n.0)

module _ {ℓ} {V : Type ℓ} where
  abbrev pub unordered : (m : Map V) → Distinct m → Unordered V
  unordered m d = Quot.mk (m, d)

  unfoldable pub put : Bytes → V → Unordered V → Unordered V
  put k v =
      Quot.lift Quot-set (λ m. unordered (insert k v m.0) (Distinct-insert k v m.0 m.1))
        λ m n same.
          Quot.sound λ j. rw (lookup-insert k j v m.0, lookup-insert k j v n.0, same j) refl

  unfoldable pub remove : Bytes → Unordered V → Unordered V
  remove k =
      Quot.lift Quot-set (λ m. unordered (delete k m.0) (Distinct-delete k m.0 m.1))
        λ m n same. Quot.sound λ j. rw (lookup-delete k j m.0, lookup-delete k j n.0, same j) refl

  -- Two writes to different keys commute.
  pub put_comm :
      (k j : Bytes) (v w : V) (m : Unordered V) → k ≢ j → put k v (put j w m) ≡ put j w (put k v m)
  unfolding put
  put_comm k j v w m differ =
      Quot.ind {β = λ m. put k v (put j w m) ≡ put j w (put k v m)} (λ q. Quot-set _ _)
        (λ m. Quot.sound λ i. ground (
          arith,
          differ,
          bytes_eq_iff k i,
          bytes_eq_iff j i,
          lookup-insert k i v (insert j w m.0),
          lookup-insert j i w m.0,
          lookup-insert j i w (insert k v m.0),
          lookup-insert k i v m.0,
        ))
        m

  -- The entries whose value passes a test.
  unfoldable pub keep_entries : (V → Bool) → Map V → Map V
  keep_entries test [] = []
  keep_entries test ((k, v) ∷ m) =
      if test v then (k, v) ∷ keep_entries test m else keep_entries test m

  abbrev pub passed : (V → Bool) → Option V → Option V
  passed test none = none
  passed test (some v) = if test v then some v else none

  none-keep_entries :
      (test : V → Bool) (k : Bytes) (m : Map V)
      → lookup k m ≡ none
      → lookup k (keep_entries test m) ≡ none
  unfolding lookup keep_entries
  none-keep_entries test k [] e = refl
  none-keep_entries test k ((j, v) ∷ m) e = ground (arith, e, none-keep_entries test k m)

  pub lookup-keep_entries :
      (test : V → Bool) (k : Bytes) (m : Map V)
      → Distinct m
      → lookup k (keep_entries test m) ≡ passed test (lookup k m)
  unfolding lookup keep_entries
  lookup-keep_entries test k [] d = refl
  lookup-keep_entries test k ((j, v) ∷ m) d =
      ground
        (arith, bytes_eq_iff j k, d.0, none-keep_entries test k m, lookup-keep_entries test k m d.1)

  pub keep_entries-Distinct :
      (test : V → Bool) (m : Map V) → Distinct m → Distinct (keep_entries test m)
  unfolding keep_entries
  keep_entries-Distinct test [] d = tt
  keep_entries-Distinct test ((k, v) ∷ m) d =
      ground (arith, d.0, none-keep_entries test k m, keep_entries-Distinct test m d.1)

  unfoldable pub keep : (V → Bool) → Unordered V → Unordered V
  keep test =
      Quot.lift Quot-set
        (λ m. unordered (keep_entries test m.0) (keep_entries-Distinct test m.0 m.1))
        λ m n same. Quot.sound λ k.
          rw (lookup-keep_entries test k m.0 m.1, lookup-keep_entries test k n.0 n.1, same k) refl
