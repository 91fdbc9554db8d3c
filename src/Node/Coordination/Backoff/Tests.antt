-- ===== src/Node/Coordination/Backoff/Tests.antt =====
-- The bounds of the delays at concrete values.
use rtc_bridge.Float.{Float}
use rtc_bridge.Prelude.{
  All, Bool-cases, List, [], arith, drop, false, if◌then◌else◌, inl, inr, leb, refl, replicate, ℕ,
  ◌*◌, ◌+◌, ◌-◌, ◌/◌, ◌<◌, ◌∷◌, ◌≡◌, ◌≤◌,
}
use native.Mathlib.Nat.{le-div_iff_mul-le, div-mul-le_self, mul-le-mul_left}
use rtc_bridge.Node.Coordination.Backoff.{Pass, backoff_initial, run_coordinator}
use rtc_bridge.Node.Coordination.Backoff.Bounds.{
  IsMonotone, IsStepped, Evaluates, IsConverted, run_coordinator-between,
}

-- Numbers with three decimals, each a natural number of thousandths above minus one thousand;
-- products and quotients are cut off.
abbrev origin : ℕ
origin = 1000000

abbrev product : ℕ → ℕ → ℕ
product a b =
    if leb origin a
    then if leb origin b
      then origin + (a - origin) * (b - origin) / 1000
      else origin - (a - origin) * (origin - b) / 1000
    else if leb origin b
    then origin - (origin - a) * (b - origin) / 1000
    else origin + (origin - a) * (origin - b) / 1000

abbrev quotient : ℕ → ℕ → ℕ
quotient a c =
    if leb origin a
    then origin + (a - origin) * 1000 / (c - origin)
    else origin - (origin - a) * 1000 / (c - origin)

abbrev decimals : Float ℕ
decimals = record {
  add = λ a b. a + b - origin;
  sub = λ a b. a + origin - b;
  mul = product;
  div = quotient;
  neg = λ a. 2 * origin - a;
  exp = λ a. a;
  constant = λ n d. origin + n * 1000 / d;
  seconds = λ n. origin + n / 1000000;
  duration = λ n. (n - origin) / 1000;
}

-- All of these numbers are finite.
abbrev IsAny : ℕ → Type 0
IsAny a = Unit

abbrev AtMost : ℕ → ℕ → Type 0
AtMost a b = a ≤ b

div_mono : (a b c : ℕ) → 0 < c → a ≤ b → a / c ≤ b / c
div_mono a b c h ab =
    (le-div_iff_mul-le {k = c} {x = a / c} {y = b} h).1 (omega (arith, div-mul-le_self a c, ab))

product_le : (c a b : ℕ) → origin ≤ c → a ≤ b → product c a ≤ product c b
product_le c a b h ab =
    let above =
      mul-le-mul_left {m = a - origin} {n = b - origin} (c - origin) (omega (arith, ab)) in
    let below =
      mul-le-mul_left {m = origin - b} {n = origin - a} (c - origin) (omega (arith, ab)) in
    ground (arith, h, ab, above, below)

product_comm : (a b : ℕ) → product a b ≡ product b a
product_comm a b = ground arith

quotient_le : (c a b : ℕ) → origin + 1000 ≤ c → a ≤ b → quotient a c ≤ quotient b c
quotient_le c a b h ab =
    let positive : 0 < c - origin = omega (arith, h) in
    let above =
      div_mono ((a - origin) * 1000) ((b - origin) * 1000) (c - origin) positive
        (omega (arith, ab)) in
    let below =
      div_mono ((origin - b) * 1000) ((origin - a) * 1000) (c - origin) positive
        (omega (arith, ab)) in
    ground (arith, ab, above, below)

decimals-IsMonotone : IsMonotone decimals AtMost IsAny
decimals-IsMonotone = record {
  trans = λ ab bc. omega (arith, ab, bc);
  total = λ {a} {b} fa fb. elim (Bool-cases (leb a b)) [
    | inl e ↦ inl (ground (arith, e))
    | inr e ↦ inr (ground (arith, e))
  ];
  between = λ fa fb ax xb. tt;
  add_le = λ fc fa fb ab. omega (arith, ab);
  sub_le = λ fc fa fb ab. omega (arith, ab);
  mul_le = λ {c} {a} {b} fc fa fb h ab. product_le c a b h ab;
  mul_zero = λ {c} fc. ground arith;
  mul_comm = λ {a} {b} fa fb. product_comm a b;
  div_le = λ {c} {a} {b} fc fa fb h ab. quotient_le c a b h ab;
  number_le = λ n k nk small.
      let less = div_mono (n * 1000) (k * 1000) 1 (omega arith) (omega (arith, nk)) in
      omega (arith, less);
  number_Finite = λ n small. tt;
}

decimals-IsStepped : (a : ℕ) → IsStepped decimals IsAny a
decimals-IsStepped a = record { quotient = tt; difference = tt; product = tt; sum = tt }

decimals-Evaluates : Evaluates decimals AtMost IsAny
decimals-Evaluates = record {
  half = omega arith;
  half_Finite = tt;
  at_1 = decimals-IsStepped (origin + 1000);
  at_120 = decimals-IsStepped (origin + 120000);
  least_jitter = omega arith;
  most_jitter = omega arith;
  jitter_positive = omega arith;
  two_fifths = omega arith;
  jitter_Finite = (tt, tt, tt, tt, tt, tt);
  up_to_15 = record {
    above = omega arith;
    below = omega arith;
    limit = omega arith;
    least_growth = omega arith;
    most_growth = omega arith;
    least_positive = omega arith;
    least_Finite = tt;
    most_Finite = tt;
    low_Finite = tt;
    high_Finite = tt;
    from_one = omega arith;
    to_most = omega arith;
  };
  up_to_60 = record {
    above = omega arith;
    below = omega arith;
    limit = omega arith;
    least_growth = omega arith;
    most_growth = omega arith;
    least_positive = omega arith;
    least_Finite = tt;
    most_Finite = tt;
    low_Finite = tt;
    high_Finite = tt;
    from_one = omega arith;
    to_most = omega arith;
  };
  up_to_90 = record {
    above = omega arith;
    below = omega arith;
    limit = omega arith;
    least_growth = omega arith;
    most_growth = omega arith;
    least_positive = omega arith;
    least_Finite = tt;
    most_Finite = tt;
    low_Finite = tt;
    high_Finite = tt;
    from_one = omega arith;
    to_most = omega arith;
  };
  up_to_120 = record {
    above = omega arith;
    below = omega arith;
    limit = omega arith;
    least_growth = omega arith;
    most_growth = omega arith;
    least_positive = omega arith;
    least_Finite = tt;
    most_Finite = tt;
    low_Finite = tt;
    high_Finite = tt;
    from_one = omega arith;
    to_most = omega arith;
  };
}

decimals-IsConverted : IsConverted decimals AtMost IsAny
decimals-IsConverted = record {
  second_Finite = tt;
  second_positive = omega arith;
  duration_le = λ {a} {b} positive ab limit.
      div_mono (a - origin) (b - origin) 1000 (omega arith) (omega (arith, ab));
  one_positive = omega arith;
  most_le = omega arith;
  one_second = refl;
  two_minutes = refl;
}

-- A connection that fails at once, 12 times, with the largest jitter.
abbrev failing : List (Pass ℕ)
failing =
    replicate 12
      (record { lasted = 0; cancelled = false; cancelled_waiting = false; random = origin + 1000 })

run_coordinator-between_example :
    All
      (λ wait. (1000000000 ≤ wait) × (wait ≤ 120 * 1000000000))
      (run_coordinator decimals (backoff_initial decimals) failing)
run_coordinator-between_example =
    run_coordinator-between decimals AtMost IsAny decimals-IsMonotone decimals-Evaluates
      decimals-IsConverted failing (omega arith)

-- The last of these waits is of more than a minute.
last_wait : drop 11 (run_coordinator decimals (backoff_initial decimals) failing) ≡ 79440000000 ∷ []
unfolding run_coordinator
last_wait = refl
