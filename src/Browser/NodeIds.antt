-- ===== src/Browser/NodeIds.antt =====
-- The node id that the browser computes is that of the Go programs.
use rtc_bridge.Prelude.{
  Bytes, IsBytes, [], arith, if_cases, if◌then◌else◌, length, ltb, refl, some, sym, take, take_all,
  ℕ, ◌*◌, ◌+◌, ◌∷◌, ◌≡◌,
}
use rtc_bridge.Protocol.Crypto.{Crypto, IsDigest}
use rtc_bridge.Protocol.NodeId.{set_bytes, text, node_id}
use rtc_bridge.Script.Bits.{bit_or-byte}
use rtc_bridge.Browser.{Subtle, shift_in, pubkey_to_node_id}

-- `crypto.subtle` and Go's packages compute the same digest, and verify alike with a key of the right
-- size.
pub record IsSubtle (c : Crypto) (subtle : Subtle) : Type 0 where
  pub same_digest : (b : Bytes) → subtle.digest b ≡ c.sum256 b
  pub same_verify :
      (key m sig : Bytes) → length key ≡ 32 → subtle.verify key m sig ≡ some (c.verify key m sig)

shift_in-set_bytes : (n : ℕ) (hash : Bytes) → IsBytes hash → shift_in n hash ≡ set_bytes n hash
unfolding shift_in set_bytes
shift_in-set_bytes n [] h = refl
shift_in-set_bytes n (b ∷ hash) h =
    rw (bit_or-byte n b h.0) (shift_in-set_bytes (n * 256 + b) hash h.1)

take-cut : (s : Bytes) → (if ltb 30 (length s) then take 30 s else s) ≡ take 30 s
take-cut s =
    if_cases (λ l. l ≡ take 30 s) (ltb 30 (length s)) (λ _. refl)
      (λ short. sym (take_all 30 s (ground (arith, short))))

pub pubkey_to_node_id-node_id :
    {c : Crypto} {subtle : Subtle} (d : IsDigest c) (same : IsSubtle c subtle) (key : Bytes)
    → pubkey_to_node_id subtle key ≡ node_id c key
unfolding pubkey_to_node_id node_id
pubkey_to_node_id-node_id {c} {subtle} d same key =
    rw (same.same_digest key, shift_in-set_bytes 0 (c.sum256 key) (d.sum256-IsBytes key))
      (sym (take-cut (text (set_bytes 0 (c.sum256 key)))))
