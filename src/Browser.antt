-- ===== src/Browser.antt =====
-- client/src/index.ts: the class Channel, which sends commands to a node over a data channel.
pub mod NodeIds
pub mod Honest
pub mod Genuine
pub mod Commands
pub mod Connect
pub mod Dial
pub mod Samples
mod Tests
use rtc_bridge.Prelude.{
  Bool, Bytes, List, Option, [], bytes_eq, codes, drop, false, has_prefix, if◌then◌else◌, inl, inr,
  length, none, not, some, take, true, ℕ, ◌*◌, ◌++◌, ◌==◌, ◌>>=◌, ◌∷◌, ◌⊎◌,
}
use Prim.Native.Nat.{bit_or}
use rtc_bridge.Protocol.NodeId.{text}
use rtc_bridge.Script.{to_hex, from_hex, xor_loop, trim, split_spaces}

-- The fields `_nodeId` and `_connected`.
pub record Channel : Type 0 where
  pub node_id : Bytes
  pub connected : Bool

-- What an async method does: the commands that it sends, and its result; `none` stands for an
-- exception.
abbrev pub Call : Type 0 → Type 0
Call A = List Bytes × Option A

-- `sendCmd`; `reply` is the first message that comes in time.
unfoldable pub send_cmd : Channel → Bytes → Option Bytes → Call Bytes
send_cmd ch cmd reply = if ch.connected then ([], none) else (cmd ∷ [], reply)

abbrev pub is_reply : Bytes → Option Bytes → Bool
is_reply text none = false
is_reply text (some resp) = bytes_eq resp text

-- `ping`, without the time that it measures.
unfoldable pub ping : Channel → Option Bytes → Call Unit
unfolding send_cmd
ping ch reply =
    let (sent, resp) = send_cmd ch (codes "ping") reply in
    (sent, if is_reply (codes "pong") resp then some tt else none)

-- `list`, with `JSON.parse`.
unfoldable pub list : (Bytes → Option (List Bytes)) → Channel → Option Bytes → Call (List Bytes)
unfolding send_cmd
list parse ch reply = let (sent, resp) = send_cmd ch (codes "list") reply in (sent, resp >>= parse)

-- `connect`, with the channel after it.
unfoldable pub connect : Bytes → Channel → Option Bytes → Call Unit × Channel
unfolding send_cmd
connect service ch reply =
    let (sent, resp) = send_cmd ch (codes "connect " ++ service) reply in
    if is_reply (codes "ok") resp
    then ((sent, some tt), record ch { connected = true })
    else ((sent, none), ch)

-- `crypto.subtle`: the digest with SHA-256, and `importKey` and `verify` with Ed25519 on a key, a
-- message and a signature, where `none` stands for an exception.
pub record Subtle : Type 0 where
  pub digest : Bytes → Bytes
  pub verify : Bytes → Bytes → Bytes → Option Bool

-- `VerifyResult`; the messages go by what they show.
pub data VerifyResult : Type 0 where
  verified : Bytes → Bytes → VerifyResult
  subtle_unavailable : VerifyResult
  unexpected_challenge_response : Bytes → VerifyResult
  invalid_challenge_hex : VerifyResult
  wrong_length : ℕ → VerifyResult
  unexpected_verify_response : Bytes → VerifyResult
  malformed_proof : ℕ → VerifyResult
  invalid_proof_hex : VerifyResult
  crypto_error : VerifyResult
  signature_invalid : VerifyResult
  id_mismatch : Bytes → Bytes → VerifyResult

-- The loop of `pubkeyToNodeId`.
unfoldable pub shift_in : ℕ → Bytes → ℕ
shift_in n [] = n
shift_in n (b ∷ hash) = shift_in (bit_or (n * 256) b) hash

abbrev pub challenge_prefix : Bytes
challenge_prefix = codes "rtc-bridge:dc-challenge:"

-- The reply to `challenge`: the random value of the node, or why it is refused.
unfoldable pub read_r_node : Bytes → VerifyResult ⊎ Bytes
read_r_node resp =
    if not (has_prefix resp (codes "challenge-response "))
    then inl (unexpected_challenge_response resp)
    else elim (from_hex (trim (drop (length (codes "challenge-response ")) resp))) [
      | none ↦ inl invalid_challenge_hex
      | some r_node ↦
          if not (length r_node == 32) then inl (wrong_length (length r_node)) else inr r_node
    ]

module _ (subtle : Subtle) where
  -- `pubkeyToNodeId`.
  unfoldable pub pubkey_to_node_id : Bytes → Bytes
  unfolding shift_in
  pubkey_to_node_id key = take 30 (text (shift_in 0 (subtle.digest key)))

  -- `verifyIdentity`, from the comparison of the ids on.
  unfoldable pub check_id : Channel → Bytes → Bytes → VerifyResult
  unfolding pubkey_to_node_id
  check_id ch key pubkey_hex =
      let derived = pubkey_to_node_id key in
      if not (bytes_eq derived ch.node_id)
      then id_mismatch derived ch.node_id
      else verified derived pubkey_hex

  -- From the message that is signed on.
  unfoldable pub check_signature : Channel → Bytes → Bytes → Bytes → Bytes → VerifyResult
  unfolding check_id
  check_signature ch joint key sig pubkey_hex =
      elim (subtle.verify key (challenge_prefix ++ joint) sig) [
        | none ↦ crypto_error
        | some false ↦ signature_invalid
        | some true ↦ check_id ch key pubkey_hex
      ]

  -- The parts of the proof.
  unfoldable pub check_parts : Channel → Bytes → Bytes → List Bytes → VerifyResult
  unfolding check_signature
  check_parts ch r_client r_node (_ ∷ pubkey_hex ∷ sig_hex ∷ []) = elim (from_hex pubkey_hex) [
    | none ↦ invalid_proof_hex
    | some key ↦ elim (from_hex sig_hex) [
      | none ↦ invalid_proof_hex
      | some sig ↦ check_signature ch (xor_loop 32 r_client r_node) key sig pubkey_hex
    ]
  ]
  check_parts ch r_client r_node parts = malformed_proof (length parts)

  -- From the reply to `verify` on.
  unfoldable pub check_proof : Channel → Bytes → Bytes → Bytes → VerifyResult
  unfolding check_parts
  check_proof ch r_client r_node resp =
      if not (has_prefix resp (codes "proof "))
      then unexpected_verify_response resp
      else check_parts ch r_client r_node (split_spaces (trim resp))

  -- From the second command on.
  unfoldable pub open_commitment : Channel → Bytes → Bytes → Option Bytes → Call VerifyResult
  unfolding check_proof send_cmd
  open_commitment ch r_client r_node reply =
      let (sent, resp) = send_cmd ch (codes "verify " ++ to_hex r_client) reply in
      (sent, resp >>= λ r. some (check_proof ch r_client r_node r))

  -- `verifyIdentity`, with the random value, whether there is `crypto.subtle`, and the replies to the
  -- two commands.
  unfoldable pub verify_identity :
      Bool → Channel → Bytes → Option Bytes → Option Bytes → Call VerifyResult
  unfolding send_cmd read_r_node open_commitment
  verify_identity available ch r_client reply1 reply2 =
      if ch.connected
      then ([], none)
      else if not available
      then ([], some subtle_unavailable)
      else let (sent, resp) =
          send_cmd ch (codes "challenge " ++ to_hex (subtle.digest r_client)) reply1 in
        elim resp [
          | none ↦ (sent, none)
          | some r ↦ elim (read_r_node r) [
            | inl refused ↦ (sent, some refused)
            | inr r_node ↦
                let (later, result) = open_commitment ch r_client r_node reply2 in
                (sent ++ later, result)
          ]
        ]
