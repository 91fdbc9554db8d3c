-- ===== src/Browser/Genuine.antt =====
-- What the browser has checked when it takes a node for genuine.
use rtc_bridge.Prelude.{
  Bool, Bool-cases, Bytes, List, Option, Option-cases, Sum-cases, [], ap, bytes_eq, bytes_eq_iff,
  codes, drop, false, has_prefix, inl, inr, length, none, refl, some, some_injective, sym, true,
  ◌++◌, ◌==◌, ◌∙◌, ◌∷◌, ◌≡◌,
}
use rtc_bridge.Script.{to_hex, from_hex, xor_loop, trim, split_spaces}
use rtc_bridge.Browser.{
  Channel, Subtle, verified, challenge_prefix, pubkey_to_node_id, check_id, check_signature,
  check_parts, check_proof, read_r_node, open_commitment, send_cmd, verify_identity,
}

verified_injective : {a b x y : Bytes} → verified a x ≡ verified b y → (a ≡ b) × (x ≡ y)
verified_injective e = (cc e, cc e)

module _ (subtle : Subtle) (ch : Channel) (r_client : Bytes) where
  -- The second reply is a proof in three words, of which the second is reported: they are what the
  -- browser reads as a key and a signature; the key's node id is the expected one, and the key accepts
  -- that signature over both random values.
  abbrev pub IsSigned : Bytes → Bytes → Bytes → Bytes → Type 0
  IsSigned r_node id pubkey_hex sig_hex =
      (key : Bytes) × (sig : Bytes) × (from_hex pubkey_hex ≡ some key)
      × (from_hex sig_hex ≡ some sig)
      × (subtle.verify key (challenge_prefix ++ xor_loop 32 r_client r_node) sig ≡ some true)
      × (pubkey_to_node_id subtle key ≡ ch.node_id)
      × (id ≡ ch.node_id)

  abbrev pub HasParts : Bytes → Bytes → Bytes → List Bytes → Type 0
  HasParts r_node id pubkey_hex parts =
      (word sig_hex : Bytes) × (parts ≡ word ∷ pubkey_hex ∷ sig_hex ∷ [])
      × IsSigned r_node id pubkey_hex sig_hex

  abbrev pub IsGenuine : Bytes → Bytes → Bytes → Bytes → Type 0
  IsGenuine r_node resp id pubkey_hex =
      (has_prefix resp (codes "proof ") ≡ true)
      × HasParts r_node id pubkey_hex (split_spaces (trim resp))

  check_id-verified :
      (key pubkey_hex id hex : Bytes)
      → check_id subtle ch key pubkey_hex ≡ verified id hex
      → (pubkey_to_node_id subtle key ≡ ch.node_id) × (id ≡ ch.node_id) × (hex ≡ pubkey_hex)
  unfolding check_id
  check_id-verified key pubkey_hex id hex e =
      let derived = pubkey_to_node_id subtle key in
      elim (Bool-cases (bytes_eq derived ch.node_id)) [
        | inl equal ↦
            let is = rw equal at e in
            let same = (bytes_eq_iff derived ch.node_id).0 equal in
            let (a, b) = verified_injective is in (same, sym a ∙ same, sym b)
        | inr other ↦ let is = rw other at e in cc
      ]

  check_signature-verified :
      (r_node key sig pubkey_hex sig_hex id hex : Bytes)
      → from_hex pubkey_hex ≡ some key
      → from_hex sig_hex ≡ some sig
      → check_signature subtle ch (xor_loop 32 r_client r_node) key sig pubkey_hex ≡ verified id hex
      → (hex ≡ pubkey_hex) × IsSigned r_node id hex sig_hex
  unfolding check_signature
  check_signature-verified r_node key sig pubkey_hex sig_hex id hex read read_sig e =
      elim (Option-cases
        (subtle.verify key (challenge_prefix ++ xor_loop 32 r_client r_node) sig)) [
          | inl f ↦ let is = rw (f, check_signature) at e in cc
          | inr (false, f) ↦ let is = rw (f, check_signature) at e in cc
          | inr (true, f) ↦
              let (same, id_is, hex_is) =
                check_id-verified key pubkey_hex id hex (rw (f, check_signature) at e) in
              (hex_is, (key, sig, rw hex_is read, read_sig, f, same, id_is))
        ]

  check_parts-verified :
      (r_node : Bytes) (parts : List Bytes) (id hex : Bytes)
      → check_parts subtle ch r_client r_node parts ≡ verified id hex
      → HasParts r_node id hex parts
  unfolding check_parts
  check_parts-verified r_node [] id hex e = cc
  check_parts-verified r_node (x ∷ []) id hex e = cc
  check_parts-verified r_node (x ∷ y ∷ []) id hex e = cc
  check_parts-verified r_node (x ∷ pubkey_hex ∷ sig_hex ∷ []) id hex e =
      elim (Option-cases (from_hex pubkey_hex)) [
        | inl f ↦ let is = rw (f, check_parts) at e in cc
        | inr (key, f) ↦ elim (Option-cases (from_hex sig_hex)) [
          | inl g ↦ let is = rw (f, check_parts, g) at e in cc
          | inr (sig, g) ↦
              let (hex_is, signed) =
                check_signature-verified r_node key sig pubkey_hex sig_hex id hex f g
                  (rw (f, check_parts, g) at e) in
              (x, sig_hex, rw hex_is refl, signed)
        ]
      ]
  check_parts-verified r_node (x ∷ y ∷ z ∷ t ∷ parts) id hex e = cc

  check_proof-verified :
      (r_node resp id hex : Bytes)
      → check_proof subtle ch r_client r_node resp ≡ verified id hex
      → IsGenuine r_node resp id hex
  unfolding check_proof
  check_proof-verified r_node resp id hex e = elim (Bool-cases (has_prefix resp (codes "proof "))) [
    | inl starts ↦ (
      starts,
      check_parts-verified r_node (split_spaces (trim resp)) id hex (rw (starts, check_proof) at e),
    )
    | inr other ↦ let is = rw (other, check_proof) at e in cc
  ]

  open_commitment-verified :
      (r_node : Bytes) (reply : Option Bytes) (later : List Bytes) (id hex : Bytes)
      → ch.connected ≡ false
      → open_commitment subtle ch r_client r_node reply ≡ (later, some (verified id hex))
      → (resp : Bytes) × (reply ≡ some resp)
        × (later ≡ (codes "verify " ++ to_hex r_client) ∷ [])
        × IsGenuine r_node resp id hex
  unfolding open_commitment send_cmd
  open_commitment-verified r_node none later id hex idle e =
      let is = rw (idle, open_commitment, send_cmd) at e in cc
  open_commitment-verified r_node (some resp) later id hex idle e =
      let is = rw (idle, open_commitment, send_cmd) at e in
      (
        resp,
        refl,
        sym (ap (λ r. r.0) is),
        check_proof-verified r_node resp id hex (some_injective (ap (λ r. r.1) is)),
      )

  -- What a successful call has sent, and what it was sent back.
  abbrev pub HasVerified : Option Bytes → Option Bytes → List Bytes → Bytes → Bytes → Type 0
  HasVerified reply1 reply2 sent id hex =
      (resp1 resp2 r_node : Bytes) × (reply1 ≡ some resp1)
      × (reply2 ≡ some resp2)
      × (read_r_node resp1 ≡ inr r_node)
      × (sent
          ≡ (codes "challenge " ++ to_hex (subtle.digest r_client))
            ∷ (codes "verify " ++ to_hex r_client)
            ∷ [])
      × IsGenuine r_node resp2 id hex

  -- What the first reply is refused with is no success.
  read_r_node-refused : (resp id hex : Bytes) → read_r_node resp ≡ inl (verified id hex) → ⊥
  unfolding read_r_node
  read_r_node-refused resp id hex e =
      elim (Bool-cases (has_prefix resp (codes "challenge-response "))) [
        | inr other ↦ let is = rw (other, read_r_node) at e in cc
        | inl starts ↦
            let text = trim (drop (length (codes "challenge-response ")) resp) in
            elim (Option-cases (from_hex text)) [
              | inl f ↦ let is = rw (starts, read_r_node, f) at e in cc
              | inr (r_node, f) ↦ elim (Bool-cases (length r_node == 32)) [
                | inl g ↦ let is = rw (starts, read_r_node, f, g) at e in cc
                | inr g ↦ let is = rw (starts, read_r_node, f, g) at e in cc
              ]
            ]
      ]

  sent-send_cmd :
      (cmd : Bytes) (reply : Option Bytes)
      → ch.connected ≡ false
      → (send_cmd ch cmd reply).0 ≡ cmd ∷ []
  unfolding send_cmd
  sent-send_cmd cmd reply idle = rw idle refl

  read_r_node-verified :
      (resp : Bytes) (reply2 : Option Bytes) (sent : List Bytes) (id hex : Bytes)
      → ch.connected ≡ false
      → verify_identity subtle true ch r_client (some resp) reply2 ≡ (sent, some (verified id hex))
      → HasVerified (some resp) reply2 sent id hex
  unfolding verify_identity send_cmd
  read_r_node-verified resp reply2 sent id hex idle e = elim (Sum-cases (read_r_node resp)) [
    | inl (refused, f) ↦
        let is = rw (idle, verify_identity, f) at e in
        let same = some_injective (ap (λ r. r.1) is) in
        absurd (read_r_node-refused resp id hex (rw same at f))
    | inr (r_node, f) ↦
        let is = rw (idle, verify_identity, f) at e in
        let later = (open_commitment subtle ch r_client r_node reply2).0 in
        let second : open_commitment subtle ch r_client r_node reply2
            ≡ (later, some (verified id hex)) =
          ap (λ r. (later, r)) (ap (λ r. r.1) is) in
        let (resp2, answered, later_is, genuine) =
          open_commitment-verified r_node reply2 later id hex idle second in
        let first =
          sym (ap (λ r. r.0) is)
          ∙ ap (λ (l : List Bytes). l ++ later)
              (sent-send_cmd (codes "challenge " ++ to_hex (subtle.digest r_client)) (some resp)
                idle)
          ∙ ap (◌∷◌ (codes "challenge " ++ to_hex (subtle.digest r_client))) later_is in
        (resp, resp2, r_node, refl, answered, f, first, genuine)
  ]

  idle-verified :
      (available : Bool) (reply1 reply2 : Option Bytes) (sent : List Bytes) (id hex : Bytes)
      → ch.connected ≡ false
      → verify_identity subtle available ch r_client reply1 reply2 ≡ (sent, some (verified id hex))
      → HasVerified reply1 reply2 sent id hex
  unfolding verify_identity send_cmd
  idle-verified false reply1 reply2 sent id hex idle e =
      let is = rw (idle, verify_identity) at e in cc
  idle-verified true none reply2 sent id hex idle e = let is = rw (idle, verify_identity) at e in cc
  idle-verified true (some resp) reply2 sent id hex idle e =
      read_r_node-verified resp reply2 sent id hex idle e

-- The browser takes a node for genuine only if both commands were sent and answered, the first answer
-- with a random value of 32 bytes, the second with a text that starts with `proof ` and has three
-- words, of which it reports the second: what it reads from that word as a key accepts what it reads
-- from the third as a signature over the prefix and both random values joined, and the node id of that
-- key is the expected one, which it reports too.
pub verify_identity-IsGenuine :
    (subtle : Subtle) (available : Bool) (ch : Channel) (r_client : Bytes)
    (reply1 reply2 : Option Bytes) (sent : List Bytes) (id hex : Bytes)
    → verify_identity subtle available ch r_client reply1 reply2 ≡ (sent, some (verified id hex))
    → HasVerified subtle ch r_client reply1 reply2 sent id hex
unfolding verify_identity open_commitment send_cmd
verify_identity-IsGenuine subtle available ch r_client reply1 reply2 sent id hex e =
    elim (Bool-cases ch.connected) [
      | inl busy ↦ let is = rw (busy, verify_identity) at e in cc
      | inr idle ↦ idle-verified subtle ch r_client available reply1 reply2 sent id hex idle e
    ]
