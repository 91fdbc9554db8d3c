-- ===== src/Prelude/Maps.antt =====
-- Go maps with string keys: association lists, in an arbitrary order of iteration.
use mathlib.Core.Path.{◌≡◌, refl, subst}
use mathlib.Core.Logic.{◌≢◌, ◌⊎◌, inl, inr}
use mathlib.Core.Option.{Option, none, some}
use mathlib.Core.List.{List, [], ◌∷◌}
use native.Mathlib.Omega.{arith}
use rtc_bridge.Prelude.Tests.{if◌then◌else◌, Bool-cases}
use rtc_bridge.Prelude.Lists.{All}
use rtc_bridge.Prelude.Strings.{Bytes, bytes_eq, bytes_eq_iff}

module _ {ℓ} where
  -- `map[string]V`.
  abbrev pub Map : Type ℓ → Type ℓ
  Map V = List (Bytes × V)

module _ {ℓ} {V : Type ℓ} where
  -- `m[k]` with its second result.
  unfoldable pub lookup : Bytes → Map V → Option V
  lookup k [] = none
  lookup k ((j, v) ∷ m) = if bytes_eq j k then some v else lookup k m

  -- `m[k] = v`.
  unfoldable pub insert : Bytes → V → Map V → Map V
  insert k v [] = (k, v) ∷ []
  insert k v ((j, w) ∷ m) = if bytes_eq j k then (k, v) ∷ m else (j, w) ∷ insert k v m

  -- `delete(m, k)`.
  unfoldable pub delete : Bytes → Map V → Map V
  delete k [] = []
  delete k ((j, v) ∷ m) = if bytes_eq j k then delete k m else (j, v) ∷ delete k m

  pub lookup-insert :
      (k j : Bytes) (v : V) (m : Map V)
      → lookup j (insert k v m) ≡ (if bytes_eq k j then some v else lookup j m)
  unfolding lookup insert
  lookup-insert k j v [] = refl
  lookup-insert k j v ((i, w) ∷ m) =
      ground (arith, bytes_eq_iff k j, bytes_eq_iff i k, bytes_eq_iff i j, lookup-insert k j v m)

  pub lookup-delete :
      (k j : Bytes) (m : Map V)
      → lookup j (delete k m) ≡ (if bytes_eq k j then none else lookup j m)
  unfolding lookup delete
  lookup-delete k j [] = ground arith
  lookup-delete k j ((i, w) ∷ m) =
      ground (arith, bytes_eq_iff k j, bytes_eq_iff i k, bytes_eq_iff i j, lookup-delete k j m)

  -- What a lookup after a write or a deletion shows.
  pub lookup-insert_cases :
      (k j : Bytes) (v : V) (m : Map V) {w : V}
      → lookup j (insert k v m) ≡ some w
      → ((k ≡ j) × (v ≡ w)) ⊎ ((k ≢ j) × (lookup j m ≡ some w))
  lookup-insert_cases k j v m {w} e =
      let read = lookup-insert k j v m in
      elim (Bool-cases (bytes_eq k j)) [
        | inl same ↦ inl ((bytes_eq_iff k j).0 same, ground (arith, read, same, e))
        | inr other ↦
            inr ((λ h. cc (other, (bytes_eq_iff k j).1 h)), ground (arith, read, other, e))
      ]

  pub lookup-delete_cases :
      (k j : Bytes) (m : Map V) {w : V}
      → lookup j (delete k m) ≡ some w
      → (k ≢ j) × (lookup j m ≡ some w)
  lookup-delete_cases k j m e =
      let read = lookup-delete k j m in
      ((λ h. ground (arith, read, e, bytes_eq_iff k j, h)), ground (arith, read, e))

  -- No key stands twice, as in every Go map.
  abbrev pub Distinct : Map V → Type ℓ
  Distinct [] = Unit
  Distinct ((k, v) ∷ m) = (lookup k m ≡ none) × Distinct m

  pub Distinct-insert : (k : Bytes) (v : V) (m : Map V) → Distinct m → Distinct (insert k v m)
  unfolding insert lookup
  Distinct-insert k v [] h = (refl, tt)
  Distinct-insert k v ((i, w) ∷ m) h =
      ground (
        arith,
        bytes_eq_iff i k,
        bytes_eq_iff k i,
        lookup-insert k i v m,
        Distinct-insert k v m h.1,
      )

  pub Distinct-delete : (k : Bytes) (m : Map V) → Distinct m → Distinct (delete k m)
  unfolding delete lookup
  Distinct-delete k [] h = tt
  Distinct-delete k ((i, w) ∷ m) h = ground (arith, lookup-delete k i m, Distinct-delete k m h.1)

pub some_injective {ℓ} : {V : Type ℓ} {v w : V} → some v ≡ some w → v ≡ w
some_injective e = cc

module _ {ℓ κ} {V : Type ℓ} (P : V → Type κ) where
  -- What holds of every value of a map holds of the one that a key leads to.
  pub lookup-All : (k : Bytes) (m : Map V) (v : V) → All (λ e. P e.1) m → lookup k m ≡ some v → P v
  unfolding lookup
  lookup-All k [] v h e = absurd (ground (arith, e))
  lookup-All k ((j, w) ∷ m) v h e = elim (Bool-cases (bytes_eq j k)) [
    | inl b ↦ subst P (some_injective (rw (b, lookup) at e)) h.0
    | inr b ↦ lookup-All k m v h.1 (rw (b, lookup) at e)
  ]
