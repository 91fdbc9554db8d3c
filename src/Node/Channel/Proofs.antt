-- ===== src/Node/Channel/Proofs.antt =====
-- The commands `challenge` and `verify`: what the node signs, and for whom.
use rtc_bridge.Prelude.{
  Bool-cases, Bytes, List, Map, Option, Option-cases, [], ap, arith, bytes_eq, bytes_eq_iff, codes,
  drop, has_prefix, inl, inr, length, none, some, trim_prefix, true, ℕ, ◌*◌, ◌++◌, ◌+◌, ◌∷◌, ◌≡◌,
  ◌≢◌,
}
use rtc_bridge.Protocol.Crypto.{Crypto}
use rtc_bridge.Protocol.Registration.{xor_bytes, sign_payload}
use rtc_bridge.Wire.{Codec}
use rtc_bridge.Hex.{hex_encode, hex_decode}
use rtc_bridge.Node.Identity.{Identity, sign}
use rtc_bridge.Node.Channel.{
  Session, no_session, World, Output, text_out, binary_out, close_out, After, goes_on,
  dc_challenge_prefix, on_challenge, on_opening, on_verify, on_connect, on_command,
}

abbrev first : Bytes → ℕ
first [] = 0
first (x ∷ s) = x

abbrev first_two : Bytes → ℕ
first_two [] = 0
first_two (x ∷ s) = x * 256 + first s

-- The first two characters of a reply.
abbrev lead : Option (List Output × After) → ℕ
lead (some (text_out t ∷ outs, after)) = first_two t
lead (some (binary_out t ∷ outs, after)) = 0
lead (some (close_out ∷ outs, after)) = 0
lead (some ([], after)) = 0
lead none = 0

-- What the command loop signs is never the payload of a registration: a coordinator cannot be
-- deceived with a signature that was obtained over a data channel.
pub dc_payload-ne-sign_payload : (joint k : Bytes) → dc_challenge_prefix ++ joint ≢ sign_payload k
unfolding sign_payload
dc_payload-ne-sign_payload joint k e =
    let apart : ◌≡◌ {A = ℕ} b'd' b'r' = ap (λ s. first (drop 11 s)) e in absurd (omega arith)

-- A session in which the two random values belong to one opening.
pub record IsOpened (c : Crypto) (id : Identity) (s : Session) (text out : Bytes) (after : After)
    : Type 0 where
  pub r_client : Bytes
  pub r_node : Bytes
  pub joint : Bytes
  pub is_verify : has_prefix text (codes "verify ") ≡ true
  pub decoded : hex_decode (trim_prefix text (codes "verify ")) ≡ some r_client
  length-r_client : length r_client ≡ 32
  pub committed : s.commitment ≡ some (c.sum256 r_client)
  pub drawn : s.r_node ≡ some r_node
  pub joins : xor_bytes 32 r_client r_node ≡ some joint
  pub replied :
      out
      ≡ codes "proof "
        ++ hex_encode id.pub_key
        ++ codes " "
        ++ hex_encode (c.sign id.priv_key (dc_challenge_prefix ++ joint))
  pub reset : after ≡ goes_on no_session

module _ (c : Crypto) (j : Codec) (quote : Bytes → Bytes) (id : Identity)
    (services : Map Bytes) where
  on_opening-proof :
      (s : Session) (text commitment r_node rest : Bytes) (outs : List Output) (after : After)
      → has_prefix text (codes "verify ") ≡ true
      → s.commitment ≡ some commitment
      → s.r_node ≡ some r_node
      → on_opening c j quote id services s commitment r_node (trim_prefix text (codes "verify "))
        ≡ some (text_out (codes "proof " ++ rest) ∷ outs, after)
      → IsOpened c id s text (codes "proof " ++ rest) after
  unfolding on_opening sign
  on_opening-proof s text commitment r_node rest outs after verify committed drawn h =
      elim (Option-cases (hex_decode (trim_prefix text (codes "verify ")))) [
        | inl e ↦ ground arith
        | inr (r_client, e) ↦ elim (Option-cases (xor_bytes (length r_client) r_client r_node)) [
          | inl e' ↦ absurd (ground arith)
          | inr (joint, e') ↦ record {
            r_client = r_client;
            r_node = r_node;
            joint = joint;
            is_verify = verify;
            decoded = e;
            length-r_client = ground arith;
            committed = ground (arith, bytes_eq_iff (c.sum256 r_client) commitment);
            drawn = drawn;
            joins = ground arith;
            replied = ground arith;
            reset = ground arith;
          }
        ]
      ]

  on_verify-proof :
      (s : Session) (text rest : Bytes) (outs : List Output) (after : After)
      → has_prefix text (codes "verify ") ≡ true
      → on_verify c j quote id services s (trim_prefix text (codes "verify "))
        ≡ some (text_out (codes "proof " ++ rest) ∷ outs, after)
      → IsOpened c id s text (codes "proof " ++ rest) after
  unfolding on_verify
  on_verify-proof s text rest outs after verify h = elim (Option-cases s.commitment) [
    | inl e ↦ absurd (omega (arith, ap lead (rw (e, on_verify) at h)))
    | inr (commitment, e) ↦ elim (Option-cases s.r_node) [
      | inl f ↦ absurd (omega (arith, ap lead (rw (e, f, on_verify) at h)))
      | inr (r_node, f) ↦
          on_opening-proof s text commitment r_node rest outs after verify e f
            (rw (e, f, on_verify) at h)
    ]
  ]

  lead-on_challenge :
      (w : World) (s : Session) (text : Bytes)
      → lead (some (on_challenge c j quote id services w s text)) ≢ first_two (codes "proof ")
  unfolding on_challenge
  lead-on_challenge w s text h = ground arith

  lead-on_connect :
      (w : World) (text : Bytes)
      → lead (some (on_connect c j quote id services w text)) ≢ first_two (codes "proof ")
  unfolding on_connect
  lead-on_connect w text h = ground arith

  -- Whatever the command's text and whatever the session: if the node replies with a proof, the text
  -- starts with `verify ` and opens the commitment of the challenge in progress, the signature is over
  -- the joint of the opening and the random value drawn for that challenge, and the challenge is then
  -- used up.
  pub on_command-proof :
      (w : World) (s : Session) (text rest : Bytes) (outs : List Output) (after : After)
      → on_command c j quote id services w s text
        ≡ some (text_out (codes "proof " ++ rest) ∷ outs, after)
      → IsOpened c id s text (codes "proof " ++ rest) after
  unfolding on_command
  on_command-proof w s text rest outs after h = elim (Bool-cases (bytes_eq text (codes "ping"))) [
    | inl e ↦ absurd (omega (arith, ap lead (rw (e, on_command) at h)))
    | inr e ↦ elim (Bool-cases (bytes_eq text (codes "list"))) [
      | inl f ↦ absurd (omega (arith, ap lead (rw (e, f, on_command) at h)))
      | inr f ↦ elim (Bool-cases (has_prefix text (codes "challenge "))) [
        | inl g ↦ absurd (
            lead-on_challenge w s (trim_prefix text (codes "challenge "))
              (ap lead (rw (e, f, g, on_command) at h)))
        | inr g ↦ elim (Bool-cases (has_prefix text (codes "verify "))) [
          | inl k ↦ on_verify-proof s text rest outs after k (rw (e, f, g, k, on_command) at h)
          | inr k ↦ elim (Bool-cases (has_prefix text (codes "connect "))) [
            | inl l ↦ absurd (
                lead-on_connect w (trim_prefix text (codes "connect "))
                  (ap lead (rw (e, f, g, k, l, on_command) at h)))
            | inr l ↦ absurd (omega (arith, ap lead (rw (e, f, g, k, l, on_command) at h)))
          ]
        ]
      ]
    ]
  ]
