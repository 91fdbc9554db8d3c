-- ===== src/Protocol/Registration.antt =====
-- protocol/protocol.go: the registration proof. An index out of range, which panics, is `none`.
pub mod Payload
pub mod Proof
use rtc_bridge.Prelude.{
  Bytes, ℕ, zero, suc, [], ◌∷◌, ◌++◌, Bool, true, false, not, ◌||◌, ◌==◌, if◌then◌else◌, length,
  codes, bytes_eq, bit_xor, Option, none, some, ◌>>=◌,
}
use rtc_bridge.Protocol.Messages.{HelloMsg, RegisterMsg}
use rtc_bridge.Protocol.Crypto.{Crypto, public_key_size}
use rtc_bridge.Protocol.NodeId.{node_id}

abbrev pub register_prefix : Bytes
register_prefix = codes "rtc-bridge:register:"

-- `signPayload`.
unfoldable pub sign_payload : Bytes → Bytes
sign_payload joint = register_prefix ++ joint

-- The loop `out[i] = a[i] ^ b[i]` over the `n` indices left.
unfoldable pub xor_bytes : ℕ → Bytes → Bytes → Option Bytes
xor_bytes zero a b = some []
xor_bytes (suc n) [] b = none
xor_bytes (suc n) (x ∷ a) [] = none
xor_bytes (suc n) (x ∷ a) (y ∷ b) = do out ← xor_bytes n a b; some (bit_xor x y ∷ out)

-- `xor32`.
unfoldable pub xor32 : Bytes → Bytes → Option Bytes
xor32 a b = xor_bytes 32 a b

-- `VerifyHello`.
unfoldable pub verify_hello : Crypto → HelloMsg → Bool
verify_hello c msg =
    if not (length msg.public_key == public_key_size)
    then false
    else bytes_eq (node_id c msg.public_key) msg.node_id

-- The loop that compares the digest with the commitment.
unfoldable pub same_bytes : Bytes → Bytes → Option Bool
same_bytes [] commitment = some true
same_bytes (x ∷ got) [] = none
same_bytes (x ∷ got) (y ∷ commitment) = if x == y then same_bytes got commitment else some false

module _ (c : Crypto) where
  -- `SignRegistration`.
  unfoldable pub sign_registration : Bytes → Bytes → Bytes → Option Bytes
  unfolding xor32
  sign_registration priv_key r_node r_coord = do
    joint ← xor32 r_node r_coord
    some (c.sign priv_key (sign_payload joint))

  -- The part of `VerifyRegistration` behind the commitment check.
  unfoldable pub verify_proof : RegisterMsg → Bytes → Option Bool
  verify_proof msg r_coord =
      if not (length msg.public_key == public_key_size)
      then some false
      else (xor32 msg.r_node r_coord >>= λ joint.
          some (c.verify msg.public_key (sign_payload joint) msg.proof))

  -- `VerifyRegistration`.
  unfoldable pub verify_registration : RegisterMsg → Bytes → Bytes → Option Bool
  unfolding same_bytes verify_proof
  verify_registration msg commitment r_coord =
      if not (length msg.r_node == 32) || not (length r_coord == 32)
      then some false
      else if not (length commitment == 32)
      then some false
      else (same_bytes (c.sum256 msg.r_node) commitment >>= λ opened.
          if opened then verify_proof msg r_coord else some false)
