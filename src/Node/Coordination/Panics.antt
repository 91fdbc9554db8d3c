-- ===== src/Node/Coordination/Panics.antt =====
-- A challenge that is too short for the node.
use rtc_bridge.Prelude.{
  Bytes, List, Option-cases, arith, bytes_eq_iff, inl, inr, length, none, some, ◌<◌, ◌↔◌, ◌≡◌,
}
use rtc_bridge.Protocol.Messages.{ChallengeMsg, msg_challenge}
use rtc_bridge.Protocol.Crypto.{Crypto}
use rtc_bridge.Protocol.Registration.{sign_registration}
use rtc_bridge.Protocol.Registration.Proof.{sign_registration-panics_iff}
use rtc_bridge.Wire.{Codec}
use rtc_bridge.Node.Identity.{Identity}
use rtc_bridge.Node.Coordination.{register_msg, send_register, read_challenge, connect_coordinator}
use rtc_bridge.Node.Coordination.Honest.{working}

module _ (c : Crypto) (j : Codec) (id : Identity) (services : List Bytes) where
  connect_coordinator-sign_registration :
      (r_node raw : Bytes) (chal : ChallengeMsg)
      → j.decode_challenge raw ≡ some chal
      → chal.kind ≡ msg_challenge
      → (connect_coordinator c j id services (working r_node raw) ≡ none)
        ↔ (sign_registration c id.priv_key r_node chal.r_coord ≡ none)
  unfolding connect_coordinator read_challenge send_register register_msg
  connect_coordinator-sign_registration r_node raw chal e kind =
      elim (Option-cases (sign_registration c id.priv_key r_node chal.r_coord)) [
        | inl p ↦ ground (arith, e, p, (bytes_eq_iff chal.kind msg_challenge).1 kind)
        | inr (proof, p) ↦ ground (arith, e, p, (bytes_eq_iff chal.kind msg_challenge).1 kind)
      ]

  -- Where every call succeeds and the node's random value has 32 bytes, a challenge message makes the
  -- node panic just when its random value has fewer than 32 bytes.
  pub connect_coordinator-panics_iff :
      (r_node raw : Bytes) (chal : ChallengeMsg)
      → length r_node ≡ 32
      → j.decode_challenge raw ≡ some chal
      → chal.kind ≡ msg_challenge
      → (connect_coordinator c j id services (working r_node raw) ≡ none)
        ↔ (length chal.r_coord < 32)
  connect_coordinator-panics_iff r_node raw chal size e kind =
      let signed = connect_coordinator-sign_registration r_node raw chal e kind in
      let short = sign_registration-panics_iff c id.priv_key r_node chal.r_coord size in
      ((λ h. short.0 (signed.0 h)), (λ h. signed.1 (short.1 h)))
