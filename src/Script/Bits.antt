-- ===== src/Script/Bits.antt =====
-- `(n << 8n) | b` on numbers without a bound.
use Prim.Native.Nat.{digits, bit_or, bit_or-bitwise, max}
use rtc_bridge.Prelude.{arith, refl, suc, zero, ℕ, ◌*◌, ◌+◌, ◌/◌, ◌<◌, ◌∙◌, ◌≡◌, ◌≤◌}

-- `n` shifted by `k` digits.
shifted : ℕ → ℕ → ℕ
shifted n zero = n
shifted n (suc k) = shifted n k * 2

or_zero_digits : (f n : ℕ) → n ≤ f → digits (λ b. b) max f n 0 ≡ n
or_zero_digits zero zero h = refl
or_zero_digits (suc f) zero h = refl
or_zero_digits zero (suc n) h = absurd (omega (arith, h))
or_zero_digits (suc f) (suc n) h =
    let rest = or_zero_digits f (suc n / 2) (omega (arith, h)) in rw rest (omega arith)

-- One step, on a number that ends with the digit 0.
or_digits_step :
    (f a m b : ℕ)
    → a ≡ m * 2
    → a ≤ f
    → ((g : ℕ) → m ≤ g → digits (λ b. b) max g m (b / 2) ≡ m + b / 2)
    → digits (λ b. b) max f a b ≡ a + b
or_digits_step zero zero m b e h rest = omega arith
or_digits_step (suc f) zero m b e h rest = omega arith
or_digits_step zero (suc a) m b e h rest = absurd (omega (arith, h))
or_digits_step (suc f) (suc a) m b e h rest =
    let half : suc a / 2 ≡ m = omega (arith, e) in
    rw (half, rest f (omega (arith, e, h))) (omega (arith, e))

or_digits :
    (k f n b : ℕ)
    → b < shifted 1 k
    → shifted n k ≤ f
    → digits (λ b. b) max f (shifted n k) b ≡ shifted n k + b
unfolding shifted
or_digits zero f n b small h =
    let is : b ≡ 0 = omega (arith, small) in rw (is, or_zero_digits f n h) (omega arith)
or_digits (suc k) f n b small h =
    or_digits_step f (shifted n k * 2) (shifted n k) b refl h
      (λ g enough. or_digits k g n (b / 2) (omega (arith, small)) enough)

pub bit_or-byte : (n b : ℕ) → b < 256 → bit_or (n * 256) b ≡ n * 256 + b
unfolding shifted
bit_or-byte n b h =
    let is : n * 256 ≡ shifted n 8 = omega arith in
    rw is (bit_or-bitwise (shifted n 8) b ∙ or_digits 8 (shifted n 8) n b h (omega arith))
