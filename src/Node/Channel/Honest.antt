-- ===== src/Node/Channel/Honest.antt =====
-- A client that follows the protocol of the commands `challenge` and `verify`.
use rtc_bridge.Prelude.{
  All-append, Bytes, IsBytes, List, Map, [], ap, arith, bytes_eq, bytes_eq_refl, codes, false,
  has_prefix, length, some, trim_prefix-append, true, ◌++◌, ◌∙◌, ◌∷◌, ◌≡◌,
}
use rtc_bridge.Protocol.Crypto.{Crypto, IsDigest, IsKey}
use rtc_bridge.Protocol.Registration.{xor_bytes}
use rtc_bridge.Protocol.Registration.Payload.{xor_bytes_total}
use rtc_bridge.Wire.{Codec}
use rtc_bridge.Hex.{hex_encode, hex_decode-hex_encode}
use rtc_bridge.Node.Identity.{Identity, sign, identity_from_priv_key}
use rtc_bridge.Node.Channel.{
  Session, no_session, World, Output, text_out, goes_on, on_challenge, is_line_end,
  dc_challenge_prefix, proof_text, on_opening, on_verify, on_command, run_channel, trim_right,
  prepend,
}
use rtc_bridge.Node.Channel.Loop.{IsClean, trim_right-clean, hex_encode-IsClean}

challenge-IsClean : IsClean (codes "challenge ")
challenge-IsClean = ground arith

verify-IsClean : IsClean (codes "verify ")
verify-IsClean = ground arith

trim_right-command :
    (command b : Bytes)
    → IsClean command
    → trim_right (command ++ hex_encode b) ≡ command ++ hex_encode b
trim_right-command command b h =
    trim_right-clean (command ++ hex_encode b)
      (All-append (λ c. is_line_end c ≡ false) command (hex_encode b) h (hex_encode-IsClean b))

module _ (c : Crypto) (j : Codec) (quote : Bytes → Bytes) (id : Identity)
    (services : Map Bytes) where
  on_command-challenge :
      (w : World) (s : Session) (commitment r_node : Bytes)
      → IsBytes commitment
      → length commitment ≡ 32
      → w.random ≡ some r_node
      → on_command c j quote id services w s (codes "challenge " ++ hex_encode commitment)
        ≡ some (
          text_out (codes "challenge-response " ++ hex_encode r_node) ∷ [],
          goes_on (record { commitment = some commitment; r_node = some r_node }),
        )
  unfolding on_command on_challenge bytes_eq has_prefix
  on_command-challenge w s commitment r_node bytes size drawn =
      rw (trim_prefix-append (codes "challenge ") (hex_encode commitment))
        (ground (arith, hex_decode-hex_encode commitment bytes))

  on_command-verify :
      (w : World) (r_client r_node joint : Bytes)
      → IsBytes r_client
      → length r_client ≡ 32
      → xor_bytes 32 r_client r_node ≡ some joint
      → on_command c j quote id services w
          (record { commitment = some (c.sum256 r_client); r_node = some r_node })
          (codes "verify " ++ hex_encode r_client)
        ≡ some (text_out (proof_text c j quote id services joint) ∷ [], goes_on no_session)
  unfolding on_command on_verify on_opening bytes_eq has_prefix
  on_command-verify w r_client r_node joint bytes size joins =
      rw (trim_prefix-append (codes "verify ") (hex_encode r_client))
        (ground (arith, hex_decode-hex_encode r_client bytes, bytes_eq_refl (c.sum256 r_client)))

  run_channel-goes_on :
      (raw : Bytes) (w : World) (messages : List (Bytes × World)) (s s' : Session)
      (out : List Output)
      → on_command c j quote id services w s (trim_right raw) ≡ some (out, goes_on s')
      → run_channel c j quote id services ((raw, w) ∷ messages) s
        ≡ prepend out (run_channel c j quote id services messages s')
  unfolding run_channel
  run_channel-goes_on raw w messages s s' out e = rw (e, run_channel)

-- A client that sends the commitment to 32 bytes and then the opening gets, in whatever session, the
-- node's random value and then a proof: a signature that the node's public key accepts over the
-- prefix and both random values joined. Then the challenge is used up, and the loop goes on.
pub run_channel-proof :
    {c : Crypto} (d : IsDigest c) (j : Codec) (quote : Bytes → Bytes) {priv : Bytes}
    (k : IsKey c priv) (services : Map Bytes) (v w : World) (s : Session) (r_client r_node : Bytes)
    (messages : List (Bytes × World))
    → IsBytes r_client
    → length r_client ≡ 32
    → length r_node ≡ 32
    → v.random ≡ some r_node
    → let id = identity_from_priv_key c priv in
      (joint : Bytes) × (xor_bytes 32 r_client r_node ≡ some joint)
      × (run_channel c j quote id services
            ((codes "challenge " ++ hex_encode (c.sum256 r_client), v)
              ∷ (codes "verify " ++ hex_encode r_client, w)
              ∷ messages)
            s
          ≡ prepend (text_out (codes "challenge-response " ++ hex_encode r_node) ∷ []) (
              prepend
                (text_out (proof_text c j quote id services joint) ∷ [])
                (run_channel c j quote id services messages no_session)))
      × (c.verify id.pub_key
            (dc_challenge_prefix ++ joint)
            (sign c id (dc_challenge_prefix ++ joint))
          ≡ true)
unfolding run_channel identity_from_priv_key sign
run_channel-proof {c} d j quote {priv} k services v w s r_client r_node messages bytes size size'
      drawn =
    let id = identity_from_priv_key c priv in
    let opened : Session = record { commitment = some (c.sum256 r_client); r_node = some r_node } in
    let (joint, joins, _) = xor_bytes_total 32 r_client r_node (omega arith) (omega arith) in
    (
      joint,
      joins,
      run_channel-goes_on c j quote id services _ v
            ((codes "verify " ++ hex_encode r_client, w) ∷ messages) s opened _
            (ap (on_command c j quote id services v s)
                (trim_right-command (codes "challenge ") (c.sum256 r_client) challenge-IsClean)
              ∙ on_command-challenge c j quote id services v s (c.sum256 r_client) r_node
                  (d.sum256-IsBytes r_client) (d.length-sum256 r_client) drawn)
          ∙ ap (prepend (text_out (codes "challenge-response " ++ hex_encode r_node) ∷ [])) (
              run_channel-goes_on c j quote id services _ w messages opened no_session _ (
                ap (on_command c j quote id services w opened)
                  (trim_right-command (codes "verify ") r_client verify-IsClean)
                ∙ on_command-verify c j quote id services w r_client r_node joint bytes size
                    joins)),
      k.verify-sign (dc_challenge_prefix ++ joint),
    )
