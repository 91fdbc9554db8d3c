-- ===== src/Float.antt =====
-- float64 and the package `math`, as far as the program computes with them: a parameter.
use rtc_bridge.Prelude.{ℕ}

pub record Float (F : Type 0) : Type 0 where
  pub add : F → F → F
  pub sub : F → F → F
  pub mul : F → F → F
  pub div : F → F → F
  pub neg : F → F
  pub exp : F → F
  -- A constant `n / d` of the source.
  pub constant : ℕ → ℕ → F
  -- `Seconds()` of a duration of so many nanoseconds.
  pub seconds : ℕ → F
  -- `time.Duration` of a number that is not negative, in nanoseconds.
  pub duration : F → ℕ
