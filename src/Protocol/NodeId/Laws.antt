-- ===== src/Protocol/NodeId/Laws.antt =====
-- What is proved of node ids: their shape, and that the digits stand for the number.
use rtc_bridge.Prelude.{
  Bytes, ℕ, zero, suc, ◌+◌, ◌-◌, ◌*◌, ◌/◌, ◌%◌, ◌≤◌, ◌<◌, [], ◌∷◌, ltb, leb, ◌&&◌, ◌||◌, Bool, true,
  if◌then◌else◌, length, All, All-take, length-take, ◌≡◌, arith, inl, inr, Bool-cases, ltb→lt, ap,
  ◌∙◌,
}
use rtc_bridge.Protocol.Crypto.{Crypto}
use rtc_bridge.Protocol.NodeId.{set_bytes, digit, text_from, text, node_id}

-- A digit or a lower-case letter.
abbrev pub is_base36 : ℕ → Bool
is_base36 c = leb b'0' c && leb c b'9' || leb b'a' c && leb c b'z'

abbrev pub IsBase36 : Bytes → Type 0
IsBase36 = All (λ c. is_base36 c ≡ true)

digit-is_base36 : (d : ℕ) → d < 36 → is_base36 (digit d) ≡ true
unfolding digit
digit-is_base36 d h = ground arith

text_from-IsBase36 : (f n : ℕ) (acc : Bytes) → IsBase36 acc → IsBase36 (text_from f n acc)
unfolding text_from
text_from-IsBase36 zero n acc h = h
text_from-IsBase36 (suc f) n acc h = elim (Bool-cases (ltb n 36)) [
  | inl small ↦ rw small (digit-is_base36 n (ltb→lt _ _ small), h)
  | inr large ↦ rw large (
      text_from-IsBase36 f (n / 36) (digit (n % 36) ∷ acc)
        (digit-is_base36 (n % 36) (omega arith), h))
]

length-text_from : (f n : ℕ) (acc : Bytes) → n < f → length acc < length (text_from f n acc)
unfolding text_from
length-text_from zero n acc h = absurd (omega arith)
length-text_from (suc f) n acc h =
    ground (arith, length-text_from f (n / 36) (digit (n % 36) ∷ acc))

-- The number that digits stand for, read from the left after `v`.
abbrev undigit : ℕ → ℕ
undigit c = if leb c b'9' then c - b'0' else c + 10 - b'a'

abbrev pub value : ℕ → Bytes → ℕ
value v [] = v
value v (c ∷ cs) = value (v * 36 + undigit c) cs

undigit-digit : (d : ℕ) → d < 36 → undigit (digit d) ≡ d
unfolding digit
undigit-digit d h = ground arith

value-text_from : (f n : ℕ) (acc : Bytes) → n < f → value 0 (text_from f n acc) ≡ value n acc
unfolding text_from
value-text_from zero n acc h = absurd (omega arith)
value-text_from (suc f) n acc h = elim (Bool-cases (ltb n 36)) [
  | inl small ↦ rw small (ap (λ v. value v acc) (omega (arith, undigit-digit n (ltb→lt _ _ small))))
  | inr large ↦ rw large (
      value-text_from f (n / 36) (digit (n % 36) ∷ acc) (ground arith)
      ∙ ap (λ v. value v acc) (omega (arith, undigit-digit (n % 36) (omega arith))))
]

-- The text of a number in base 36 stands for that number, so distinct numbers have distinct texts.
pub value-text : (n : ℕ) → value 0 (text n) ≡ n
unfolding text
value-text n = value-text_from (suc n) n [] (omega arith)

text-IsBase36 : (n : ℕ) → IsBase36 (text n)
unfolding text
text-IsBase36 n = text_from-IsBase36 (suc n) n [] tt

length-text : (n : ℕ) → 0 < length (text n)
unfolding text
length-text n = length-text_from (suc n) n [] (omega arith)

-- For every public key the node id is made of digits and lower-case letters, is not empty and has
-- at most 30 characters.
pub node_id_shape :
    (c : Crypto) (key : Bytes)
    → IsBase36 (node_id c key) × (0 < length (node_id c key)) × (length (node_id c key) ≤ 30)
unfolding node_id
node_id_shape c key =
    let n = set_bytes 0 (c.sum256 key) in
    let t = text n in
    elim (Bool-cases (ltb 30 (length t))) [
      | inl long ↦ rw long (
        All-take (λ d. is_base36 d ≡ true) 30 t (text-IsBase36 n),
        ground (arith, length-take 30 t),
        ground (arith, length-take 30 t),
      )
      | inr short ↦ rw short (text-IsBase36 n, length-text n, ground arith)
    ]
