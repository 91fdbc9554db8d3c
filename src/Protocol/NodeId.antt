-- ===== src/Protocol/NodeId.antt =====
-- protocol/protocol.go: `NodeID`, with `big.Int.SetBytes` and `big.Int.Text(36)`.
pub mod Laws
use rtc_bridge.Prelude.{
  Bytes, ℕ, zero, suc, ◌-◌, ◌+◌, ◌*◌, ◌/◌, ◌%◌, [], ◌∷◌, ltb, if◌then◌else◌, length, take,
}
use rtc_bridge.Protocol.Crypto.{Crypto}

-- `SetBytes` reads the bytes with the most significant first; `acc` is what is read so far.
unfoldable pub set_bytes : ℕ → Bytes → ℕ
set_bytes acc [] = acc
set_bytes acc (b ∷ bs) = set_bytes (acc * 256 + b) bs

-- A digit of base 36: `0` to `9`, then `a` to `z`.
unfoldable pub digit : ℕ → ℕ
digit d = if ltb d 10 then b'0' + d else b'a' + d - 10

-- The digits of `n` before `acc`. The fuel is the number itself and one, which is more than it has
-- digits.
unfoldable pub text_from : ℕ → ℕ → Bytes → Bytes
unfolding digit
text_from zero n acc = acc
text_from (suc f) n acc =
    let more = text_from f (n / 36) (digit (n % 36) ∷ acc) in
    if ltb n 36 then digit n ∷ acc else more

-- `n.Text(36)`.
unfoldable pub text : ℕ → Bytes
unfolding text_from
text n = text_from (suc n) n []

-- `NodeID`.
unfoldable pub node_id : Crypto → Bytes → Bytes
unfolding text set_bytes
node_id c pub_key =
    let s = text (set_bytes 0 (c.sum256 pub_key)) in if ltb 30 (length s) then take 30 s else s
