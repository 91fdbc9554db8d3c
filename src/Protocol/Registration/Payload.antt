-- ===== src/Protocol/Registration/Payload.antt =====
-- The joint random value and the payload that is signed: `xor32` and `signPayload`.
use Prim.Native.Nat.{ℕ}
use native.Mathlib.Decide.{dec_le}
use rtc_bridge.Prelude.{
  ==_iff, Bool, Bytes, IsBytes, Option-cases, [], ap, arith, bit_xor, inl, inr, length, refl, some,
  suc, sym, true, zero, ◌&&◌, ◌<◌, ◌==◌, ◌∙◌, ◌∷◌, ◌≡◌, ◌≢◌, ◌≤◌,
}
use rtc_bridge.Protocol.Registration.{sign_payload, xor_bytes, xor32}

-- A test holds of the numbers from `n` down.
tested : (ℕ → Bool) → ℕ → Bool
tested test zero = test 0
tested test (suc n) = tested test n && test (suc n)

tested-le : (test : ℕ → Bool) (n k : ℕ) → k ≤ n → tested test n ≡ true → test k ≡ true
unfolding tested
tested-le test zero k small all = let e : k ≡ 0 = omega arith in rw e all
tested-le test (suc n) k small all = elim (dec_le k n) [
  | yes below ↦ tested-le test n k below (ground arith)
  | no above ↦ let e : k ≡ suc n = omega arith in rw e (ground arith)
]

abbrev undoes : ℕ → ℕ → Bool
undoes x y = bit_xor x (bit_xor x y) == y

undoes_bytes : tested (λ x. tested (undoes x) 255) 255 ≡ true
unfolding tested
undoes_bytes = refl

bit_xor_self_left : (x y : ℕ) → x < 256 → y < 256 → bit_xor x (bit_xor x y) ≡ y
bit_xor_self_left x y hx hy =
    let row = tested-le (λ x. tested (undoes x) 255) 255 x (omega arith) undoes_bytes in
    (==_iff _ y).0 (tested-le (undoes x) 255 y (omega arith) row)

-- With two slices that are long enough the loop ends without a panic.
pub xor_bytes_total :
    (n : ℕ) (a b : Bytes)
    → n ≤ length a
    → n ≤ length b
    → (out : Bytes) × (xor_bytes n a b ≡ some out) × (length out ≡ n)
unfolding xor_bytes
xor_bytes_total zero a b ha hb = ([], refl, refl)
xor_bytes_total (suc n) [] b ha hb = absurd (omega arith)
xor_bytes_total (suc n) (x ∷ a) [] ha hb = absurd (omega arith)
xor_bytes_total (suc n) (x ∷ a) (y ∷ b) ha hb =
    let (out, e, l) = xor_bytes_total n a b (omega arith) (omega arith) in
    (bit_xor x y ∷ out, rw e, ap suc l)

bit_xor-injective : (x y z : ℕ) → x < 256 → y < 256 → z < 256 → bit_xor x y ≡ bit_xor x z → y ≡ z
bit_xor-injective x y z hx hy hz e =
    sym (bit_xor_self_left x y hx hy) ∙ ap (bit_xor x) e ∙ bit_xor_self_left x z hx hz

xor_bytes-injective :
    (n : ℕ) (a b d out : Bytes)
    → (IsBytes a × IsBytes b × IsBytes d)
    → length b ≡ n
    → length d ≡ n
    → xor_bytes n a b ≡ some out
    → xor_bytes n a d ≡ some out
    → b ≡ d
unfolding xor_bytes
xor_bytes-injective zero a [] [] out h lb ld p q = refl
xor_bytes-injective zero a [] (z ∷ d) out h lb ld p q = absurd (omega arith)
xor_bytes-injective zero a (y ∷ b) d out h lb ld p q = absurd (omega arith)
xor_bytes-injective (suc n) [] b d out h lb ld p q = cc
xor_bytes-injective (suc n) (x ∷ a) [] d out h lb ld p q = cc
xor_bytes-injective (suc n) (x ∷ a) (y ∷ b) [] out h lb ld p q = cc
xor_bytes-injective (suc n) (x ∷ a) (y ∷ b) (z ∷ d) out h lb ld p q =
    elim (Option-cases (xor_bytes n a b)) [
      | inl e ↦ ground arith
      | inr (o, e) ↦ elim (Option-cases (xor_bytes n a d)) [
        | inl e' ↦ ground arith
        | inr (o', e') ↦ ground (
          arith,
          bit_xor-injective x y z h.0.0 h.1.0 h.2.0,
          xor_bytes-injective n a b d o (h.0.1, h.1.1, h.2.1),
        )
      ]
    ]

sign_payload-injective : (j k : Bytes) → sign_payload j ≡ sign_payload k → j ≡ k
unfolding sign_payload
sign_payload-injective j k e = cc

-- For one value of the node, two different challenges of 32 bytes lead to two different payloads, so
-- a proof that was made for one challenge is no signature of the payload of another.
sign_payload-fresh :
    (r_node r_coord r_coord' joint joint' : Bytes)
    → (IsBytes r_node × IsBytes r_coord × IsBytes r_coord')
    → length r_coord ≡ 32
    → length r_coord' ≡ 32
    → xor32 r_node r_coord ≡ some joint
    → xor32 r_node r_coord' ≡ some joint'
    → r_coord ≢ r_coord'
    → sign_payload joint ≢ sign_payload joint'
unfolding xor32
sign_payload-fresh r_node r_coord r_coord' joint joint' h l l' e e' differ same = differ (
    xor_bytes-injective 32 r_node r_coord r_coord' joint h l l' e
      (e' ∙ ap some (sym (sign_payload-injective joint joint' same))))
