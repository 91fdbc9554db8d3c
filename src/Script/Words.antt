-- ===== src/Script/Words.antt =====
-- Trimming and splitting a text of words.
use rtc_bridge.Prelude.{
  All, Bytes, IsBytes, [], arith, codes, false, refl, ℕ, ◌%◌, ◌++◌, ◌/◌, ◌==◌, ◌∷◌, ◌≡◌,
}
use rtc_bridge.Hex.{hex_encode}
use rtc_bridge.Script.{is_space, trim_start, trim_end, trim, split_spaces, hex_digit-IsPlain}

-- No white space.
abbrev pub IsWord : Bytes → Type 0
IsWord = All (λ c. is_space c ≡ false)

pub hex_encode-IsWord : (b : Bytes) → IsBytes b → IsWord (hex_encode b)
unfolding hex_encode
hex_encode-IsWord [] h = tt
hex_encode-IsWord (b ∷ bs) h = (
  (hex_digit-IsPlain (b / 16) (omega arith)).0,
  ((hex_digit-IsPlain (b % 16) (omega arith)).0, hex_encode-IsWord bs h.1),
)

trim_end-word : (s : Bytes) → IsWord s → trim_end s ≡ s
unfolding trim_end
trim_end-word [] h = refl
trim_end-word (x ∷ []) h = rw h.0 refl
trim_end-word (x ∷ y ∷ s) h = rw (trim_end-word (y ∷ s) h.1) refl

-- A text that ends with a word stays as it is at the end.
trim_end-append :
    (s : Bytes) (x : ℕ) (w : Bytes) → IsWord (x ∷ w) → trim_end (s ++ x ∷ w) ≡ s ++ x ∷ w
unfolding trim_end
trim_end-append [] x w h = trim_end-word (x ∷ w) h
trim_end-append (c ∷ []) x w h = rw (trim_end-word (x ∷ w) h) refl
trim_end-append (c ∷ d ∷ s) x w h = rw (trim_end-append (d ∷ s) x w h) refl

-- Nor is it changed at all if it begins with a word.
pub trim-words :
    (c : ℕ) (s : Bytes) (x : ℕ) (w : Bytes)
    → is_space c ≡ false
    → IsWord (x ∷ w)
    → trim (c ∷ s ++ x ∷ w) ≡ c ∷ s ++ x ∷ w
unfolding trim trim_start
trim-words c s x w plain h = rw plain (trim_end-append (c ∷ s) x w h)

trim_start-word : (s : Bytes) → IsWord s → trim_start s ≡ s
unfolding trim_start
trim_start-word [] h = refl
trim_start-word (c ∷ s) h = rw h.0 refl

pub trim-word : (s : Bytes) → IsWord s → trim s ≡ s
unfolding trim
trim-word s h = rw (trim_start-word s h) (trim_end-word s h)

not_blank : (c : ℕ) → is_space c ≡ false → (c == 32) ≡ false
not_blank c h = ground (arith, h)

pub split_spaces-word : (w : Bytes) → IsWord w → split_spaces w ≡ w ∷ []
unfolding split_spaces
split_spaces-word [] h = refl
split_spaces-word (c ∷ w) h = rw (not_blank c h.0, split_spaces-word w h.1) refl

pub split_spaces-append :
    (w s : Bytes) → IsWord w → split_spaces (w ++ codes " " ++ s) ≡ w ∷ split_spaces s
unfolding split_spaces
split_spaces-append [] s h = refl
split_spaces-append (c ∷ w) s h = rw (not_blank c h.0, split_spaces-append w s h.1) refl
