-- ===== src/Protocol/Registration/Proof.antt =====
-- `SignRegistration` and `VerifyRegistration` against each other.
use rtc_bridge.Prelude.{
  Bool, Bool-cases, Bytes, Option-cases, [], arith, bytes_eq, bytes_eq_iff, false, inl, inr, length,
  none, refl, some, suc, true, zero, ℕ, ◌<◌, ◌==◌, ◌↔◌, ◌∷◌, ◌≡◌, ◌≤◌,
}
use rtc_bridge.Protocol.Messages.{RegisterMsg}
use rtc_bridge.Protocol.Crypto.{Crypto, IsDigest, IsKey, public_key_size}
use native.Mathlib.Decide.{dec_lt}
use rtc_bridge.Protocol.Registration.{
  sign_payload, xor_bytes, xor32, sign_registration, same_bytes, verify_proof, verify_registration,
}
use rtc_bridge.Protocol.Registration.Payload.{xor_bytes_total}

xor32_total :
    (a b : Bytes)
    → length a ≡ 32
    → length b ≡ 32
    → (out : Bytes) × (xor32 a b ≡ some out) × (length out ≡ 32)
unfolding xor32
xor32_total a b ha hb = xor_bytes_total 32 a b (omega arith) (omega arith)

same_bytes-bytes_eq : (a b : Bytes) → length a ≡ length b → same_bytes a b ≡ some (bytes_eq a b)
unfolding same_bytes bytes_eq
same_bytes-bytes_eq [] [] h = refl
same_bytes-bytes_eq [] (y ∷ b) h = absurd (omega arith)
same_bytes-bytes_eq (x ∷ a) [] h = absurd (omega arith)
same_bytes-bytes_eq (x ∷ a) (y ∷ b) h = ground (arith, same_bytes-bytes_eq a b)

-- What `VerifyRegistration` accepts, written without its order of tests: the opening of the
-- commitment and a signature over the payload of both random values.
pub record IsProved (c : Crypto) (msg : RegisterMsg) (commitment r_coord : Bytes) : Type 0 where
  pub joint : Bytes
  pub length-r_node : length msg.r_node ≡ 32
  pub length-r_coord : length r_coord ≡ 32
  pub opens : c.sum256 msg.r_node ≡ commitment
  pub length-public_key : length msg.public_key ≡ public_key_size
  pub joins : xor32 msg.r_node r_coord ≡ some joint
  pub signed : c.verify msg.public_key (sign_payload joint) msg.proof ≡ true

module _ {c : Crypto} (d : IsDigest c) (msg : RegisterMsg) (commitment r_coord : Bytes) where
  verify_proof_lem :
      length msg.r_node ≡ 32
      → length r_coord ≡ 32
      → (b : Bool) × (verify_proof c msg r_coord ≡ some b)
  unfolding verify_proof
  verify_proof_lem hn hc =
      let (out, e, l) = xor32_total msg.r_node r_coord hn hc in
      elim (Bool-cases (length msg.public_key == public_key_size)) [
        | inl p ↦ (c.verify msg.public_key (sign_payload out) msg.proof, ground arith)
        | inr p ↦ (false, ground arith)
      ]

  verify_registration_complete :
      IsProved c msg commitment r_coord → verify_registration c msg commitment r_coord ≡ some true
  unfolding verify_registration
  verify_registration_complete h = ground (
    arith,
    same_bytes-bytes_eq (c.sum256 msg.r_node) commitment,
    bytes_eq_iff (c.sum256 msg.r_node) commitment,
    d.length-sum256 msg.r_node,
  )

  verify_registration_sound :
      verify_registration c msg commitment r_coord ≡ some true → IsProved c msg commitment r_coord
  unfolding verify_registration verify_proof
  verify_registration_sound h =
      let hn : length msg.r_node ≡ 32 = ground arith in
      let hc : length r_coord ≡ 32 = ground arith in
      let (out, e, l) = xor32_total msg.r_node r_coord hn hc in
      let digest = d.length-sum256 msg.r_node in
      let same = same_bytes-bytes_eq (c.sum256 msg.r_node) commitment in
      record {
        joint = out;
        length-r_node = hn;
        length-r_coord = hc;
        opens = ground (arith, digest, same, bytes_eq_iff (c.sum256 msg.r_node) commitment);
        length-public_key = ground (arith, digest, same);
        joins = e;
        signed = ground (arith, digest, same);
      }

  -- `VerifyRegistration` accepts exactly the messages that open the commitment, with both random
  -- values and the public key of their sizes, and whose proof is a signature of the joint payload.
  pub verify_registration_iff :
      (verify_registration c msg commitment r_coord ≡ some true) ↔ IsProved c msg commitment r_coord
  verify_registration_iff = (verify_registration_sound, verify_registration_complete)

  -- Whatever the message, the commitment and the challenge, `VerifyRegistration` returns: no index
  -- is out of range.
  pub verify_registration_returns :
      (b : Bool) × (verify_registration c msg commitment r_coord ≡ some b)
  unfolding verify_registration
  verify_registration_returns =
      let same = same_bytes-bytes_eq (c.sum256 msg.r_node) commitment in
      let digest = d.length-sum256 msg.r_node in
      elim (Option-cases (verify_registration c msg commitment r_coord)) [
        | inl panics ↦ absurd (ground (arith, same, digest, verify_proof_lem))
        | inr returns ↦ returns
      ]

-- The proof that `SignRegistration` makes with a key pair passes `VerifyRegistration`, whatever the
-- two random values of 32 bytes, if the message carries the opening and the public key.
pub verify-sign_registration :
    {c : Crypto} (d : IsDigest c) {priv : Bytes} (k : IsKey c priv) (msg : RegisterMsg)
    (r_coord : Bytes)
    → length msg.r_node ≡ 32
    → length r_coord ≡ 32
    → msg.public_key ≡ c.public priv
    → sign_registration c priv msg.r_node r_coord ≡ some msg.proof
    → verify_registration c msg (c.sum256 msg.r_node) r_coord ≡ some true
unfolding sign_registration
verify-sign_registration {c} d {priv} k msg r_coord hn hc key made =
    let (out, e, l) = xor32_total msg.r_node r_coord hn hc in
    verify_registration_complete d msg (c.sum256 msg.r_node) r_coord (record {
      joint = out;
      length-r_node = hn;
      length-r_coord = hc;
      opens = refl;
      length-public_key = rw key k.length-public;
      joins = e;
      signed = ground (arith, k.verify-sign (sign_payload out));
    })

xor_bytes-short : (n : ℕ) (a b : Bytes) → length b < n → n ≤ length a → xor_bytes n a b ≡ none
unfolding xor_bytes
xor_bytes-short zero a b h k = absurd (omega arith)
xor_bytes-short (suc n) [] b h k = absurd (omega arith)
xor_bytes-short (suc n) (x ∷ a) [] h k = refl
xor_bytes-short (suc n) (x ∷ a) (y ∷ b) h k = rw (xor_bytes-short n a b (omega arith) (omega arith))

-- With 32 random bytes of its own a node can sign for a challenge exactly if that has at least 32
-- bytes. `SignRegistration` checks no length, so a shorter challenge makes it panic.
pub sign_registration-panics_iff :
    (c : Crypto) (priv r_node r_coord : Bytes)
    → length r_node ≡ 32
    → (sign_registration c priv r_node r_coord ≡ none) ↔ (length r_coord < 32)
unfolding sign_registration xor32
sign_registration-panics_iff c priv r_node r_coord h = (
  (λ e. elim (dec_lt (length r_coord) 32) [
    | yes short ↦ short
    | no long ↦
        let (out, joins, _) = xor_bytes_total 32 r_node r_coord (omega arith) (omega arith) in
        absurd (ground arith)
  ]),
  (λ short. rw (xor_bytes-short 32 r_node r_coord short (omega arith))),
)
