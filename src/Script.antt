-- ===== src/Script.antt =====
-- client/src/index.ts: `toHex`, `fromHex` and `xor32`, with what JavaScript does with strings,
-- numbers and a Uint8Array. A string is a list of code units.
use rtc_bridge.Prelude.{
  Bool, Bytes, IsBytes, List, Option, [], ap, arith, bit_xor, false, if_cases, if◌then◌else◌, leb,
  length, ltb, none, not, refl, some, suc, zero, ℕ, ◌%◌, ◌&&◌, ◌*◌, ◌++◌, ◌+◌, ◌-◌, ◌/◌, ◌<◌, ◌==◌,
  ◌||◌, ◌∙◌, ◌∷◌, ◌≡◌,
}
pub mod Words
pub mod Bits
use rtc_bridge.Hex.{hex_digit, hex_encode, from_hex_char, from_hex_char-hex_digit}

-- `b.toString(16).padStart(2, '0')` for an element of a Uint8Array, which is below 256.
abbrev pub padded : ℕ → Bytes
padded b =
    if ltb b 16 then b'0' ∷ hex_digit b ∷ [] else hex_digit (b / 16) ∷ hex_digit (b % 16) ∷ []

-- `toHex`.
unfoldable pub to_hex : Bytes → Bytes
to_hex [] = []
to_hex (b ∷ bytes) = padded b ++ to_hex bytes

-- White space and line ends.
abbrev pub is_space : ℕ → Bool
is_space c =
    (leb 9 c && leb c 13)
    || c == 32
    || c == 160
    || c == 5760
    || (leb 8192 c && leb c 8202)
    || c == 8232
    || c == 8233
    || c == 8239
    || c == 8287
    || c == 12288
    || c == 65279

unfoldable pub trim_start : Bytes → Bytes
trim_start [] = []
trim_start (c ∷ s) = if is_space c then trim_start s else c ∷ s

abbrev pub drop_space : ℕ → Bytes → Bytes
drop_space c [] = if is_space c then [] else c ∷ []
drop_space c (d ∷ s) = c ∷ d ∷ s

unfoldable pub trim_end : Bytes → Bytes
trim_end [] = []
trim_end (c ∷ s) = drop_space c (trim_end s)

-- `s.trim()`.
unfoldable pub trim : Bytes → Bytes
unfolding trim_start trim_end
trim s = trim_end (trim_start s)

abbrev pub onto_first_part : ℕ → List Bytes → List Bytes
onto_first_part c [] = (c ∷ []) ∷ []
onto_first_part c (part ∷ parts) = (c ∷ part) ∷ parts

-- `s.split(' ')`.
unfoldable pub split_spaces : Bytes → List Bytes
split_spaces [] = [] ∷ []
split_spaces (c ∷ s) =
    let parts = split_spaces s in if c == 32 then [] ∷ parts else onto_first_part c parts

abbrev pub or_zero : Option ℕ → ℕ
or_zero none = 0
or_zero (some v) = v

-- The number that the hexadecimal digits at the beginning make, after what is read so far; `none`
-- stands for no digit.
unfoldable pub leading_digits : Option ℕ → Bytes → Option ℕ
leading_digits read [] = read
leading_digits read (c ∷ s) = elim (from_hex_char c) [
  | none ↦ read
  | some d ↦ leading_digits (some (or_zero read * 16 + d)) s
]

abbrev pub skip_0x : Bytes → Bytes
skip_0x [] = []
skip_0x (c ∷ []) = c ∷ []
skip_0x (c ∷ x ∷ s) = if c == b'0' && (x == b'x' || x == b'X') then s else c ∷ x ∷ s

-- A number that is stored in a Uint8Array: modulo 256, and NaN as 0.
abbrev pub stored : Option ℕ → ℕ
stored o = or_zero o % 256

abbrev pub stored_negative : Option ℕ → ℕ
stored_negative o = (256 - or_zero o % 256) % 256

-- `parseInt(s, 16)`, as it is stored.
unfoldable pub parse_trimmed : Bytes → ℕ
unfolding leading_digits
parse_trimmed [] = 0
parse_trimmed (c ∷ s) =
    if c == b'-'
    then stored_negative (leading_digits none (skip_0x s))
    else if c == b'+'
    then stored (leading_digits none (skip_0x s))
    else stored (leading_digits none (skip_0x (c ∷ s)))

unfoldable pub parse_byte : Bytes → ℕ
unfolding parse_trimmed trim_start
parse_byte s = parse_trimmed (trim_start s)

-- The loop of `fromHex`, over the pairs of characters.
unfoldable pub parse_pairs : Bytes → Bytes
unfolding parse_byte
parse_pairs [] = []
parse_pairs (c ∷ []) = []
parse_pairs (c ∷ d ∷ s) = parse_byte (c ∷ d ∷ []) ∷ parse_pairs s

-- `fromHex`; `none` stands for the exception.
unfoldable pub from_hex : Bytes → Option Bytes
unfolding parse_pairs
from_hex hex = if not (length hex % 2 == 0) then none else some (parse_pairs hex)

-- An element of a Uint8Array; the operator `^` takes one that is missing for 0.
abbrev pub or_missing : Bytes → ℕ × Bytes
or_missing [] = (0, [])
or_missing (x ∷ a) = (x, a)

-- The loop of `xor32`, over the `n` indices left.
unfoldable pub xor_loop : ℕ → Bytes → Bytes → Bytes
xor_loop zero a b = []
xor_loop (suc n) a b =
    bit_xor (or_missing a).0 (or_missing b).0 ∷ xor_loop n (or_missing a).1 (or_missing b).1

-- A character that `parseInt` takes for nothing but a digit.
abbrev pub IsPlain : ℕ → Type 0
IsPlain c =
    (is_space c ≡ false)
    × ((c == b'-') ≡ false)
    × ((c == b'+') ≡ false)
    × ((c == b'x') ≡ false)
    × ((c == b'X') ≡ false)

pub hex_digit-IsPlain : (d : ℕ) → d < 16 → IsPlain (hex_digit d)
unfolding hex_digit
hex_digit-IsPlain d h = ground arith

-- What `fromHex` makes of two digits.
parse_byte_digits :
    (c d h l : ℕ)
    → IsPlain c
    → IsPlain d
    → from_hex_char c ≡ some h
    → from_hex_char d ≡ some l
    → parse_byte (c ∷ d ∷ []) ≡ (h * 16 + l) % 256
unfolding parse_byte parse_trimmed trim_start leading_digits
parse_byte_digits c d h l pc pd e f = ground (arith, pc, pd, e, f)

parse_byte-hex_digit :
    (h l : ℕ) → h < 16 → l < 16 → parse_byte (hex_digit h ∷ hex_digit l ∷ []) ≡ h * 16 + l
parse_byte-hex_digit h l hh hl =
    parse_byte_digits (hex_digit h) (hex_digit l) h l (hex_digit-IsPlain h hh)
      (hex_digit-IsPlain l hl) (from_hex_char-hex_digit h hh) (from_hex_char-hex_digit l hl)
    ∙ omega arith

even-hex_encode : (b : Bytes) → length (hex_encode b) % 2 ≡ 0
unfolding hex_encode
even-hex_encode [] = omega arith
even-hex_encode (b ∷ bs) = omega (arith, even-hex_encode bs)

parse_pairs-hex_encode : (b : Bytes) → IsBytes b → parse_pairs (hex_encode b) ≡ b
unfolding parse_pairs hex_encode
parse_pairs-hex_encode [] h = refl
parse_pairs-hex_encode (b ∷ bs) h =
    rw
      (
        parse_byte-hex_digit (b / 16) (b % 16) (omega arith) (omega arith),
        parse_pairs-hex_encode bs h.1,
      )
      (ap (λ (x : ℕ). x ∷ bs) (omega arith))

-- `fromHex` gives back what Go has encoded.
pub from_hex-hex_encode : (b : Bytes) → IsBytes b → from_hex (hex_encode b) ≡ some b
unfolding from_hex
from_hex-hex_encode b h = ground (arith, even-hex_encode b, parse_pairs-hex_encode b h)

-- `toHex` makes what Go's encoder makes.
pub to_hex-hex_encode : (b : Bytes) → to_hex b ≡ hex_encode b
unfolding to_hex hex_encode hex_digit
to_hex-hex_encode [] = refl
to_hex-hex_encode (b ∷ bs) =
    if_cases (λ l. l ++ to_hex bs ≡ hex_digit (b / 16) ∷ hex_digit (b % 16) ∷ hex_encode bs)
      (ltb b 16) (λ small. ground (arith, small, to_hex-hex_encode bs))
      (λ large. ap (λ l. hex_digit (b / 16) ∷ hex_digit (b % 16) ∷ l) (to_hex-hex_encode bs))
