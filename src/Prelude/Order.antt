-- ===== src/Prelude/Order.antt =====
-- The order of strings, and `sort.Strings`.
use mathlib.Core.Bool.{Bool, true, false, ◌&&◌, ◌||◌}
use mathlib.Core.Path.{◌≡◌, refl, ap₂, ◌∙◌}
use mathlib.Core.Logic.{∥∥₁_elim}
use mathlib.Core.List.{List, [], ◌∷◌, Perm, Permᴰ}
use native.Mathlib.Omega.{arith}
use rtc_bridge.Prelude.Tests.{◌==◌, ltb, if◌then◌else◌}
use rtc_bridge.Prelude.Strings.{Bytes}

-- `a <= b` on strings: byte by byte, a prefix first.
unfoldable pub le_str : Bytes → Bytes → Bool
le_str [] b = true
le_str (x ∷ a) [] = false
le_str (x ∷ a) (y ∷ b) = ltb x y || ((x == y) && le_str a b)

insert_sorted : Bytes → List Bytes → List Bytes
insert_sorted a [] = a ∷ []
insert_sorted a (b ∷ bs) = if le_str a b then a ∷ b ∷ bs else b ∷ insert_sorted a bs

-- `sort.Strings`. The result does not depend on the algorithm.
unfoldable pub sort_strings : List Bytes → List Bytes
unfolding insert_sorted
sort_strings [] = []
sort_strings (a ∷ l) = insert_sorted a (sort_strings l)

le_str_total : (a b : Bytes) → le_str a b ≡ false → le_str b a ≡ true
unfolding le_str
le_str_total [] b h = ground arith
le_str_total (x ∷ a) [] h = refl
le_str_total (x ∷ a) (y ∷ b) h = ground (arith, le_str_total a b)

le_str_antisymm : (a b : Bytes) → le_str a b ≡ true → le_str b a ≡ true → a ≡ b
unfolding le_str
le_str_antisymm [] [] h k = refl
le_str_antisymm [] (y ∷ b) h k = ground arith
le_str_antisymm (x ∷ a) [] h k = ground arith
le_str_antisymm (x ∷ a) (y ∷ b) h k = ground (arith, le_str_antisymm a b)

le_str_trans : (a b c : Bytes) → le_str a b ≡ true → le_str b c ≡ true → le_str a c ≡ true
unfolding le_str
le_str_trans [] b c h k = refl
le_str_trans (x ∷ a) [] c h k = ground arith
le_str_trans (x ∷ a) (y ∷ b) [] h k = ground arith
le_str_trans (x ∷ a) (y ∷ b) (z ∷ c) h k = ground (arith, le_str_trans a b c)

insert_sorted_comm :
    (a b : Bytes) (l : List Bytes)
    → insert_sorted a (insert_sorted b l) ≡ insert_sorted b (insert_sorted a l)
unfolding insert_sorted
insert_sorted_comm a b [] = ground (arith, le_str_total a b, le_str_antisymm a b)
insert_sorted_comm a b (c ∷ l) = ground (
  arith,
  insert_sorted_comm a b l,
  le_str_total a b,
  le_str_total b a,
  le_str_total a c,
  le_str_total b c,
  le_str_antisymm a b,
  le_str_trans a b c,
  le_str_trans b a c,
)

Permᴰ-sort_strings : {l m : List Bytes} → Permᴰ l m → sort_strings l ≡ sort_strings m
unfolding sort_strings
Permᴰ-sort_strings Permᴰ.nil = refl
Permᴰ-sort_strings (Permᴰ.cons e p) = ap₂ insert_sorted e (Permᴰ-sort_strings p)
Permᴰ-sort_strings (Permᴰ.swap {a} {b} {l} e f) =
    insert_sorted_comm a b (sort_strings l)
    ∙ ap₂ (λ x y. insert_sorted x (insert_sorted y (sort_strings l))) f e
Permᴰ-sort_strings (Permᴰ.trans p q) = Permᴰ-sort_strings p ∙ Permᴰ-sort_strings q

strings_set : IsSet (List Bytes)
strings_set = hlevel

-- Sorting forgets the order of its input.
pub perm-sort_strings : {l m : List Bytes} → Perm l m → sort_strings l ≡ sort_strings m
perm-sort_strings p = ∥∥₁_elim p (strings_set _ _) Permᴰ-sort_strings

-- Every element is at most the next.
abbrev pub IsSorted : List Bytes → Type 0
IsSorted [] = Unit
IsSorted (a ∷ []) = Unit
IsSorted (a ∷ b ∷ l) = (le_str a b ≡ true) × IsSorted (b ∷ l)

insert_sorted-IsSorted : (a : Bytes) (l : List Bytes) → IsSorted l → IsSorted (insert_sorted a l)
unfolding insert_sorted
insert_sorted-IsSorted a [] h = tt
insert_sorted-IsSorted a (b ∷ []) h = ground (arith, le_str_total a b)
insert_sorted-IsSorted a (b ∷ c ∷ l) h =
    ground (arith, le_str_total a b, insert_sorted-IsSorted a (c ∷ l) h.1)

sort_strings-IsSorted : (l : List Bytes) → IsSorted (sort_strings l)
unfolding sort_strings
sort_strings-IsSorted [] = tt
sort_strings-IsSorted (a ∷ l) = insert_sorted-IsSorted a (sort_strings l) (sort_strings-IsSorted l)
