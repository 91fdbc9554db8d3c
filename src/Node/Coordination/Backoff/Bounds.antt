-- ===== src/Node/Coordination/Backoff/Bounds.antt =====
-- How long `runCoordinator` waits.
use rtc_bridge.Float.{Float}
use rtc_bridge.Prelude.{
  All, List, [], arith, if_cases, inl, inr, leb, subst, ℕ, ◌*◌, ◌∷◌, ◌≡◌, ◌≤◌, ◌⊎◌,
}
use rtc_bridge.Coordinator.State.{second}
use rtc_bridge.Node.Coordination.Backoff.{
  Pass, backoff_initial, backoff_k, backoff_max, next_backoff, delay_of, wait_of, run_coordinator,
  backoff_reset_after,
}

module _ {F : Type 0} (f : Float F) where
  abbrev number : ℕ → F
  number n = f.constant n 1

  -- The factor of `nextBackoff` before the jitter.
  abbrev pub growth : F → F
  growth cur = f.add (number 1) (f.mul (backoff_k f) (f.sub (number 1) (f.div cur (backoff_max f))))

  -- What the operations of a floating point format with correct rounding do on finite numbers: they
  -- keep the order. `Finite` says that a number is neither infinite nor NaN.
  pub record IsMonotone (le : F → F → Type 0) (Finite : F → Type 0) : Type 0 where
    pub trans : {a b c : F} → le a b → le b c → le a c
    pub total : {a b : F} → Finite a → Finite b → le a b ⊎ le b a
    pub between : {a b x : F} → Finite a → Finite b → le a x → le x b → Finite x
    pub add_le : {c a b : F} → Finite c → Finite a → Finite b → le a b → le (f.add c a) (f.add c b)
    pub sub_le : {c a b : F} → Finite c → Finite a → Finite b → le a b → le (f.sub c b) (f.sub c a)
    pub mul_le :
        {c a b : F}
        → Finite c
        → Finite a
        → Finite b
        → le (number 0) c
        → le a b
        → le (f.mul c a) (f.mul c b)
    pub mul_zero : {c : F} → Finite c → le (number 0) (f.mul c (number 0))
    pub mul_comm : {a b : F} → Finite a → Finite b → f.mul a b ≡ f.mul b a
    pub div_le :
        {c a b : F}
        → Finite c
        → Finite a
        → Finite b
        → le (number 1) c
        → le a b
        → le (f.div a c) (f.div b c)
    pub number_le : (n k : ℕ) → n ≤ k → k ≤ 1000 → le (number n) (number k)
    pub number_Finite : (n : ℕ) → n ≤ 1000 → Finite (number n)

  -- The intermediate values of the factor are finite.
  pub record IsStepped (Finite : F → Type 0) (cur : F) : Type 0 where
    pub quotient : Finite (f.div cur (backoff_max f))
    pub difference : Finite (f.sub (number 1) (f.div cur (backoff_max f)))
    pub product : Finite (f.mul (backoff_k f) (f.sub (number 1) (f.div cur (backoff_max f))))
    pub sum : Finite (growth cur)

  -- What the operations make of the constants `low` and `high`, with bounds that have small powers of
  -- two for denominators: bounds of the factor, of the product with it, and with the jitter.
  pub record IsRange (le : F → F → Type 0) (Finite : F → Type 0) (low high : ℕ) (least most : F)
      : Type 0 where
    pub above : 1 ≤ low
    pub below : low ≤ high
    pub limit : high ≤ 120
    pub least_growth : le least (growth (number high))
    pub most_growth : le (growth (number low)) most
    pub least_positive : le (number 0) least
    pub least_Finite : Finite least
    pub most_Finite : Finite most
    pub low_Finite : Finite (f.mul (number low) least)
    pub high_Finite : Finite (f.mul (number high) most)
    pub from_one : le (number 1) (f.mul (f.mul (number low) least) (f.constant 3 4))
    pub to_most : le (f.mul (f.mul (number high) most) (f.constant 5 4)) (number 120)

  -- What the operations make of other constants.
  pub record Evaluates (le : F → F → Type 0) (Finite : F → Type 0) : Type 0 where
    pub half : le (number 0) (backoff_k f)
    pub half_Finite : Finite (backoff_k f)
    pub at_1 : IsStepped Finite (number 1)
    pub at_120 : IsStepped Finite (number 120)
    pub least_jitter :
        le (f.constant 3 4) (f.add (f.constant 4 5) (f.mul (f.constant 2 5) (number 0)))
    pub most_jitter :
        le (f.add (f.constant 4 5) (f.mul (f.constant 2 5) (number 1))) (f.constant 5 4)
    pub jitter_positive : le (number 0) (f.constant 3 4)
    pub two_fifths : le (number 0) (f.constant 2 5)
    pub jitter_Finite :
        Finite (f.constant 4 5)
        × Finite (f.constant 2 5)
        × Finite (f.constant 3 4)
        × Finite (f.constant 5 4)
        × Finite (f.mul (f.constant 2 5) (number 0))
        × Finite (f.mul (f.constant 2 5) (number 1))
    pub up_to_15 : IsRange le Finite 1 15 (f.constant 11 8) (f.constant 3 2)
    pub up_to_60 : IsRange le Finite 15 60 (number 1) (f.constant 3 2)
    pub up_to_90 : IsRange le Finite 60 90 (f.constant 1 2) (number 1)
    pub up_to_120 : IsRange le Finite 90 120 (f.constant 1 2) (f.constant 3 4)

  -- The conversion to a `time.Duration`, up to two minutes.
  pub record IsConverted (le : F → F → Type 0) (Finite : F → Type 0) : Type 0 where
    pub second_Finite : Finite (number second)
    pub second_positive : le (number 0) (number second)
    pub duration_le :
        {a b : F}
        → le (number 0) a
        → le a b
        → le b (f.mul (number second) (number 120))
        → f.duration a ≤ f.duration b
    pub one_positive : le (number 0) (f.mul (number second) (number 1))
    pub most_le : le (f.mul (number second) (number 120)) (f.mul (number second) (number 120))
    pub one_second : f.duration (f.mul (number second) (number 1)) ≡ second
    pub two_minutes : f.duration (f.mul (number second) (number 120)) ≡ 120 * second

  module _ (le : F → F → Type 0) (Finite : F → Type 0) (m : IsMonotone le Finite) where
    -- Products of numbers that are not negative.
    mul_both :
        {a b c d : F}
        → Finite a × Finite b × Finite c × Finite d
        → le (number 0) b
        → le (number 0) c
        → le a b
        → le c d
        → le (f.mul a c) (f.mul b d)
    mul_both {a} {b} {c} {d} (fa, fb, fc, fd) hb hc ab cd =
        let first : le (f.mul a c) (f.mul b c) =
          rw (m.mul_comm fa fc, m.mul_comm fb fc) (m.mul_le fc fa fb hc ab) in
        m.trans first (m.mul_le fb fc fd hb cd)

    abbrev Between : F → F → F → Type 0
    Between low high a = le low a × le a high

    -- A number between two others that the program writes down.
    in_bounds :
        (low high : ℕ) (a : F)
        → low ≤ 1000
        → high ≤ 1000
        → Between (number low) (number high) a
        → Finite a
    in_bounds low high a small big (above, below) =
        m.between (m.number_Finite low small) (m.number_Finite high big) above below

    max_Finite : Finite (backoff_max f)
    max_Finite = m.number_Finite 60 (omega arith)

    one_Finite : Finite (number 1)
    one_Finite = m.number_Finite 1 (omega arith)

    -- One step after the other keeps or turns the order.
    quotient_le :
        {a b : F}
        → Finite a
        → Finite b
        → le a b
        → le (f.div a (backoff_max f)) (f.div b (backoff_max f))
    quotient_le fa fb ab =
        m.div_le max_Finite fa fb (m.number_le 1 60 (omega arith) (omega arith)) ab

    difference_le :
        {a b : F}
        → Finite a
        → Finite b
        → IsStepped Finite a
        → IsStepped Finite b
        → le a b
        → le
            (f.sub (number 1) (f.div b (backoff_max f)))
            (f.sub (number 1) (f.div a (backoff_max f)))
    difference_le fa fb sa sb ab =
        m.sub_le one_Finite sa.quotient sb.quotient (quotient_le fa fb ab)

    growth_le :
        Evaluates le Finite
        → {a b : F} → Finite a
        → Finite b
        → IsStepped Finite a
        → IsStepped Finite b
        → le a b
        → le (growth b) (growth a)
    growth_le v fa fb sa sb ab =
        m.add_le one_Finite sb.product sa.product
          (m.mul_le v.half_Finite sb.difference sa.difference v.half (difference_le fa fb sa sb ab))

    stepped :
        Evaluates le Finite → (cur : F) → Between (number 1) (number 120) cur → IsStepped Finite cur
    stepped v cur (above, below) =
        let fa = m.number_Finite 1 (omega arith) in
        let fb = m.number_Finite 120 (omega arith) in
        let fc = in_bounds 1 120 cur (omega arith) (omega arith) (above, below) in
        let qa = quotient_le fa fc above in
        let qb = quotient_le fc fb below in
        let q = m.between v.at_1.quotient v.at_120.quotient qa qb in
        let da = m.sub_le one_Finite v.at_1.quotient q qa in
        let db = m.sub_le one_Finite q v.at_120.quotient qb in
        let d = m.between v.at_120.difference v.at_1.difference db da in
        let pa = m.mul_le v.half_Finite d v.at_1.difference v.half da in
        let pb = m.mul_le v.half_Finite v.at_120.difference d v.half db in
        let p = m.between v.at_120.product v.at_1.product pb pa in
        record {
          quotient = q;
          difference = d;
          product = p;
          sum =
              m.between v.at_120.sum v.at_1.sum (m.add_le one_Finite v.at_120.product p pb)
                (m.add_le one_Finite p v.at_1.product pa);
        }

    abbrev jitter_of : F → F
    jitter_of random = f.add (f.constant 4 5) (f.mul (f.constant 2 5) random)

    jitter-Between :
        Evaluates le Finite
        → (random : F) → Between (number 0) (number 1) random
        → Between (f.constant 3 4) (f.constant 5 4) (jitter_of random)
    jitter-Between v random (above, below) =
        let (four, two, _, _, low, high) = v.jitter_Finite in
        let fr = in_bounds 0 1 random (omega arith) (omega arith) (above, below) in
        let least = m.mul_le two (m.number_Finite 0 (omega arith)) fr v.two_fifths above in
        let most = m.mul_le two fr one_Finite v.two_fifths below in
        let drawn = m.between low high least most in
        (
          m.trans v.least_jitter (m.add_le four low drawn least),
          m.trans (m.add_le four drawn high most) v.most_jitter,
        )

    -- A delay in a range.
    range-next_backoff :
        Evaluates le Finite
        → {low high : ℕ} {least most : F} → IsRange le Finite low high least most
        → (cur random : F) → Between (number low) (number high) cur
        → Between (number 0) (number 1) random
        → Between (number 1) (number 120) (next_backoff f cur random)
    unfolding next_backoff
    range-next_backoff v {low} {high} {least} {most} r cur random (above, below) drawn =
        let (j_low, j_high) = jitter-Between v random drawn in
        let (_, _, three_quarters, five_quarters, _, _) = v.jitter_Finite in
        let fj = m.between three_quarters five_quarters j_low j_high in
        let f_low = m.number_Finite low (omega (arith, r.below, r.limit)) in
        let f_high = m.number_Finite high (omega (arith, r.limit)) in
        let fc = m.between f_low f_high above below in
        let from_1 = m.number_le 1 low r.above (omega (arith, r.below, r.limit)) in
        let to_120 = m.number_le high 120 r.limit (omega arith) in
        let s_low =
          stepped v (number low)
            (from_1, m.number_le low 120 (omega (arith, r.below, r.limit)) (omega arith)) in
        let s_high =
          stepped v (number high) (
            m.number_le 1 high (omega (arith, r.above, r.below)) (omega (arith, r.limit)),
            to_120,
          ) in
        let s = stepped v cur (m.trans from_1 above, m.trans below to_120) in
        let g_low = m.trans r.least_growth (growth_le v fc f_high s s_high below) in
        let g_high = m.trans (growth_le v f_low fc s_low s above) r.most_growth in
        let zero_low = m.number_le 0 low (omega arith) (omega (arith, r.below, r.limit)) in
        let zero_high = m.number_le 0 high (omega arith) (omega (arith, r.limit)) in
        let zero_cur = m.trans zero_low above in
        let zero_g = m.trans r.least_positive g_low in
        let positive =
          m.trans (m.mul_zero fc)
            (m.mul_le fc (m.number_Finite 0 (omega arith)) s.sum zero_cur zero_g) in
        let next_low =
          mul_both (f_low, fc, r.least_Finite, s.sum) zero_cur r.least_positive above g_low in
        let next_high = mul_both (fc, f_high, s.sum, r.most_Finite) zero_high zero_g below g_high in
        let next = m.between r.low_Finite r.high_Finite next_low next_high in
        let zero_jitter = m.trans v.jitter_positive j_low in
        (
          m.trans r.from_one (
              mul_both (r.low_Finite, next, three_quarters, fj) positive v.jitter_positive next_low
                j_low),
          m.trans
              (mul_both (next, r.high_Finite, fj, five_quarters) (m.trans positive next_high)
                zero_jitter next_high j_high)
              r.to_most,
        )

    -- Every delay in bounds leads to one in bounds.
    next_backoff-Between :
        Evaluates le Finite
        → (cur random : F) → Between (number 1) (number 120) cur
        → Between (number 0) (number 1) random
        → Between (number 1) (number 120) (next_backoff f cur random)
    next_backoff-Between v cur random (above, below) drawn =
        let fc = in_bounds 1 120 cur (omega arith) (omega arith) (above, below) in
        elim (m.total fc (m.number_Finite 15 (omega arith))) [
          | inl to_15 ↦ range-next_backoff v v.up_to_15 cur random (above, to_15) drawn
          | inr from_15 ↦ elim (m.total fc (m.number_Finite 60 (omega arith))) [
            | inl to_60 ↦ range-next_backoff v v.up_to_60 cur random (from_15, to_60) drawn
            | inr from_60 ↦ elim (m.total fc (m.number_Finite 90 (omega arith))) [
              | inl to_90 ↦ range-next_backoff v v.up_to_90 cur random (from_60, to_90) drawn
              | inr from_90 ↦ range-next_backoff v v.up_to_120 cur random (from_90, below) drawn
            ]
          ]
        ]

    delay_of-Between :
        (delay : F) (p : Pass F)
        → Between (number 1) (number 120) delay
        → Between (number 1) (number 120) (delay_of f delay p)
    delay_of-Between delay p h =
        if_cases (Between (number 1) (number 120)) (leb backoff_reset_after p.lasted)
          (λ _. (
            m.number_le 1 1 (omega arith) (omega arith),
            m.number_le 1 120 (omega arith) (omega arith),
          ))
          (λ _. h)

    -- A wait of at least one second and at most two minutes.
    abbrev pub IsWait : ℕ → Type 0
    IsWait wait = (second ≤ wait) × (wait ≤ 120 * second)

    wait_of-IsWait :
        IsConverted le Finite
        → (delay : F) → Between (number 1) (number 120) delay
        → IsWait (wait_of f delay)
    wait_of-IsWait v delay (above, below) =
        let fd = in_bounds 1 120 delay (omega arith) (omega arith) (above, below) in
        let fb = m.number_Finite 120 (omega arith) in
        let low = m.mul_le v.second_Finite one_Finite fd v.second_positive above in
        let high = m.mul_le v.second_Finite fd fb v.second_positive below in
        let least = v.duration_le v.one_positive low high in
        let most = v.duration_le (m.trans v.one_positive low) high v.most_le in
        subst (λ x. IsWait (f.duration x)) (m.mul_comm v.second_Finite fd)
          (omega (arith, v.one_second, least), omega (arith, v.two_minutes, most))

    run-IsWait :
        Evaluates le Finite
        → IsConverted le Finite
        → (delay : F) (passes : List (Pass F)) → Between (number 1) (number 120) delay
        → All (λ p. Between (number 0) (number 1) p.random) passes
        → All IsWait (run_coordinator f delay passes)
    unfolding run_coordinator
    run-IsWait v c delay [] h drawn = tt
    run-IsWait v c delay (p ∷ passes) h drawn =
        let this = delay_of-Between delay p h in
        let next = next_backoff-Between v (delay_of f delay p) p.random this drawn.0 in
        let rest =
          run-IsWait v c (next_backoff f (delay_of f delay p) p.random) passes next drawn.1 in
        if_cases (All IsWait) p.cancelled (λ _. tt)
          (λ _. (
            wait_of-IsWait c (delay_of f delay p) this,
            if_cases (All IsWait) p.cancelled_waiting (λ _. tt) (λ _. rest),
          ))

-- In floating point arithmetic that keeps the order of finite numbers, and for the values that it gives
-- to the constants, whatever numbers between 0 and 1 the jitter draws and however long the connections
-- last: `runCoordinator` waits at least one second and at most two minutes each time.
pub run_coordinator-between :
    {F : Type 0} (f : Float F) (le : F → F → Type 0) (Finite : F → Type 0)
    → IsMonotone f le Finite
    → Evaluates f le Finite
    → IsConverted f le Finite
    → (passes : List (Pass F))
    → All (λ p. le (f.constant 0 1) p.random × le p.random (f.constant 1 1)) passes
    → All
        (λ wait. (second ≤ wait) × (wait ≤ 120 * second))
        (run_coordinator f (backoff_initial f) passes)
run_coordinator-between f le Finite m v c passes drawn =
    run-IsWait f le Finite m v c (backoff_initial f) passes
      (m.number_le 1 1 (omega arith) (omega arith), m.number_le 1 120 (omega arith) (omega arith))
      drawn
