-- ===== src/Browser/Honest.antt =====
-- Browser and node: the browser verifies a node that follows the protocol.
use rtc_bridge.Prelude.{
  Bytes, IsBytes, List, Map, Option-cases, [], ap, arith, bit_xor, bytes_eq_refl, codes, false,
  has_prefix, inl, inr, length, refl, some, some_injective, suc, sym, true, zero, ℕ, ◌%◌, ◌++◌, ◌/◌,
  ◌<◌, ◌∙◌, ◌∷◌, ◌≡◌,
}
use rtc_bridge.Protocol.Crypto.{Crypto, IsDigest, IsKey}
use rtc_bridge.Protocol.NodeId.{node_id}
use rtc_bridge.Protocol.Registration.{xor_bytes}
use rtc_bridge.Wire.{Codec}
use rtc_bridge.Hex.{hex_digit, hex_encode}
use rtc_bridge.Script.{xor_loop, trim, split_spaces, from_hex-hex_encode, to_hex-hex_encode}
use rtc_bridge.Script.Words.{
  IsWord, hex_encode-IsWord, trim-words, trim-word, split_spaces-word, split_spaces-append,
}
use rtc_bridge.Node.Identity.{sign, identity_from_priv_key}
use rtc_bridge.Node.Channel.{Session, no_session, World, text_out, proof_text, run_channel, prepend}
use rtc_bridge.Node.Channel.Honest.{run_channel-proof}
use rtc_bridge.Browser.{
  Channel, Subtle, verified, challenge_prefix, check_id, check_signature, check_parts, check_proof,
  read_r_node, open_commitment, send_cmd, verify_identity,
}
use rtc_bridge.Browser.NodeIds.{IsSubtle, pubkey_to_node_id-node_id}

xor_loop-xor_bytes : (n : ℕ) (a b out : Bytes) → xor_bytes n a b ≡ some out → xor_loop n a b ≡ out
unfolding xor_loop xor_bytes
xor_loop-xor_bytes zero a b out e = some_injective e
xor_loop-xor_bytes (suc n) [] b out e = cc
xor_loop-xor_bytes (suc n) (x ∷ a) [] out e = cc
xor_loop-xor_bytes (suc n) (x ∷ a) (y ∷ b) out e = elim (Option-cases (xor_bytes n a b)) [
  | inl f ↦ let is = rw (f, xor_bytes) at e in cc
  | inr (rest, f) ↦
      let is = rw (f, xor_bytes) at e in
      ap (◌∷◌ (bit_xor x y)) (xor_loop-xor_bytes n a b rest f) ∙ some_injective is
]

read_r_node-response :
    (r_node : Bytes)
    → IsBytes r_node
    → length r_node ≡ 32
    → read_r_node (codes "challenge-response " ++ hex_encode r_node) ≡ inr r_node
unfolding read_r_node has_prefix
read_r_node-response r_node bytes size =
    rw
      (
        trim-word (hex_encode r_node) (hex_encode-IsWord r_node bytes),
        from_hex-hex_encode r_node bytes,
        size,
      )
      refl

proof_IsWord : IsWord (codes "proof")
proof_IsWord = ground arith

-- The reply to `verify`, as the browser splits it.
split_spaces-proof :
    (key sig : Bytes)
    → IsBytes key
    → IsBytes sig
    → 0 < length sig
    → split_spaces (trim (codes "proof " ++ hex_encode key ++ codes " " ++ hex_encode sig))
      ≡ codes "proof" ∷ hex_encode key ∷ hex_encode sig ∷ []
unfolding hex_encode
split_spaces-proof key [] hk hs h = absurd (omega (arith, h))
split_spaces-proof key (b ∷ sig) hk hs h =
    let word = hex_encode-IsWord (b ∷ sig) hs in
    let kept =
      trim-words b'p' (codes "roof " ++ hex_encode key ++ codes " ") (hex_digit (b / 16))
        (hex_digit (b % 16) ∷ hex_encode sig) refl word in
    ap split_spaces kept
    ∙ (split_spaces-append (codes "proof") (hex_encode key ++ codes " " ++ hex_encode (b ∷ sig))
          proof_IsWord
        ∙ ap (◌∷◌ (codes "proof")) (
            split_spaces-append (hex_encode key) (hex_encode (b ∷ sig)) (hex_encode-IsWord key hk)
            ∙ ap (◌∷◌ (hex_encode key)) (split_spaces-word (hex_encode (b ∷ sig)) word)))

-- What `ed25519` documents, as far as it is needed: keys and signatures consist of bytes, and a
-- signature is not empty.
pub record IsSigner (c : Crypto) (priv : Bytes) : Type 0 where
  pub public-IsBytes : IsBytes (c.public priv)
  pub sign-IsBytes : (m : Bytes) → IsBytes (c.sign priv m)
  pub some_length : (m : Bytes) → 0 < length (c.sign priv m)

module _ {c : Crypto} (d : IsDigest c) {subtle : Subtle} (same : IsSubtle c subtle) {priv : Bytes}
    (k : IsKey c priv) (g : IsSigner c priv) (ch : Channel) where
  -- The browser accepts the proof of a node whose id it expects.
  check_proof-proof :
      (r_client r_node joint : Bytes)
      → xor_bytes 32 r_client r_node ≡ some joint
      → ch.node_id ≡ node_id c (c.public priv)
      → check_proof subtle ch r_client r_node (
          codes "proof "
          ++ hex_encode (c.public priv)
          ++ codes " "
          ++ hex_encode (c.sign priv (challenge_prefix ++ joint)))
        ≡ verified ch.node_id (hex_encode (c.public priv))
  unfolding check_proof check_parts check_signature check_id has_prefix
  check_proof-proof r_client r_node joint joins expected =
      let key = c.public priv in
      let sig = c.sign priv (challenge_prefix ++ joint) in
      let bytes = g.sign-IsBytes (challenge_prefix ++ joint) in
      let id = pubkey_to_node_id-node_id d same key ∙ sym expected in
      rw
        (
          split_spaces-proof key sig g.public-IsBytes bytes
              (g.some_length (challenge_prefix ++ joint)),
          check_parts,
          from_hex-hex_encode key g.public-IsBytes,
          from_hex-hex_encode sig bytes,
          xor_loop-xor_bytes 32 r_client r_node joint joins,
          check_signature,
          same.same_verify key (challenge_prefix ++ joint) sig k.length-public,
          k.verify-sign (challenge_prefix ++ joint),
          check_id,
          id,
          bytes_eq_refl ch.node_id,
        )
        refl

  pub verify_identity-replies :
      (r_client r_node joint : Bytes)
      → IsBytes r_node
      → length r_node ≡ 32
      → xor_bytes 32 r_client r_node ≡ some joint
      → ch.connected ≡ false
      → ch.node_id ≡ node_id c (c.public priv)
      → verify_identity subtle true ch r_client
          (some (codes "challenge-response " ++ hex_encode r_node))
          (some (
            codes "proof "
            ++ hex_encode (c.public priv)
            ++ codes " "
            ++ hex_encode (c.sign priv (challenge_prefix ++ joint))))
        ≡ (
          (codes "challenge " ++ hex_encode (c.sum256 r_client))
              ∷ (codes "verify " ++ hex_encode r_client)
              ∷ [],
          some (verified ch.node_id (hex_encode (c.public priv))),
        )
  unfolding verify_identity open_commitment send_cmd
  verify_identity-replies r_client r_node joint bytes size joins idle expected =
      rw
        (
          idle,
          read_r_node-response r_node bytes size,
          verify_identity,
          open_commitment,
          send_cmd,
          idle,
          check_proof-proof r_client r_node joint joins expected,
          same.same_digest r_client,
          to_hex-hex_encode (c.sum256 r_client),
          to_hex-hex_encode r_client,
        )
        refl

-- The browser verifies an honest node, whatever was done on the channel before: the two commands that
-- `verifyIdentity` sends make the command loop of a node with a key pair reply with a random value and
-- with a proof, and from these replies the browser concludes that the node is genuine, if it expects
-- the node id of that key. It reports that id and the hexadecimal public key.
pub run_channel-verify_identity :
    {c : Crypto} (d : IsDigest c) {subtle : Subtle} (same : IsSubtle c subtle) (j : Codec)
    (quote : Bytes → Bytes) {priv : Bytes} (k : IsKey c priv) (g : IsSigner c priv)
    (services : Map Bytes) (v w : World) (s : Session) (r_client r_node : Bytes)
    (messages : List (Bytes × World)) (ch : Channel)
    → IsBytes r_client
    → length r_client ≡ 32
    → IsBytes r_node
    → length r_node ≡ 32
    → v.random ≡ some r_node
    → ch.connected ≡ false
    → ch.node_id ≡ node_id c (c.public priv)
    → let run = run_channel c j quote (identity_from_priv_key c priv) services in
      (cmd1 cmd2 reply1 reply2 : Bytes) × (run ((cmd1, v) ∷ (cmd2, w) ∷ messages) s
        ≡ prepend (text_out reply1 ∷ []) (prepend (text_out reply2 ∷ []) (run messages no_session)))
      × (verify_identity subtle true ch r_client (some reply1) (some reply2)
          ≡ (cmd1 ∷ cmd2 ∷ [], some (verified ch.node_id (hex_encode (c.public priv)))))
unfolding identity_from_priv_key sign
run_channel-verify_identity {c} d {subtle} same j quote {priv} k g services v w s r_client r_node
      messages ch bytes size bytes' size' drawn idle expected =
    let (joint, joins, runs, genuine) =
      run_channel-proof d j quote k services v w s r_client r_node messages bytes size size'
        drawn in
    (
      codes "challenge " ++ hex_encode (c.sum256 r_client),
      codes "verify " ++ hex_encode r_client,
      codes "challenge-response " ++ hex_encode r_node,
      proof_text c j quote (identity_from_priv_key c priv) services joint,
      runs,
      verify_identity-replies d same k g ch r_client r_node joint bytes' size' joins idle expected,
    )
