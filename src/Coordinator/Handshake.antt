-- ===== src/Coordinator/Handshake.antt =====
-- coordinator/main.go: `handleNodeWS` up to the call of `registerNode`.
pub mod Acceptance
use rtc_bridge.Prelude.{
  Bool, Bytes, Option, bytes_eq, codes, false, if◌then◌else◌, none, not, some, true, ◌>>=◌,
}
use rtc_bridge.Protocol.Messages.{
  HelloMsg, ChallengeMsg, RegisterMsg, msg_hello, msg_challenge, msg_register,
}
use rtc_bridge.Protocol.Crypto.{Crypto}
use rtc_bridge.Protocol.Registration.{verify_hello, verify_registration}
use rtc_bridge.Wire.{Codec}

-- How the handshake ends: the handler returns without a word, sends a close frame with the code
-- `CloseProtocolError` and this reason, or goes on with the register message.
pub data Handshake : Type 0 where
  dropped : Handshake
  refused : Bytes → Handshake
  accepted : RegisterMsg → Handshake

abbrev pub challenge_msg : Bytes → ChallengeMsg
challenge_msg r_coord = record { kind = msg_challenge; r_coord = r_coord }

module _ (c : Crypto) (j : Codec) where
  -- Step 3 from the message on: `none` is a panic in `VerifyRegistration`.
  unfoldable pub read_register : HelloMsg → Bytes → Option Bytes → Option Handshake
  read_register hello r_coord none = some dropped
  read_register hello r_coord (some raw) = elim (j.decode_register raw) [
    | none ↦ some (refused (codes "expected register"))
    | some reg ↦
        if not (bytes_eq reg.kind msg_register)
        then some (refused (codes "expected register"))
        else (verify_registration c reg hello.commitment r_coord >>= λ valid.
            some (if not valid then refused (codes "invalid proof") else accepted reg))
  ]

  -- Step 2: `none` is a failure of `rand.Read`, and `wrote` tells whether `WriteJSON` succeeded.
  unfoldable pub send_challenge : HelloMsg → Option Bytes → Bool → Option Bytes → Option Handshake
  unfolding read_register
  send_challenge hello none wrote second = some dropped
  send_challenge hello (some r_coord) false second = some dropped
  send_challenge hello (some r_coord) true second = read_register hello r_coord second

  -- Step 1, and the rest: `first` and `second` are what the two reads return, `none` for an error.
  unfoldable pub handshake : Option Bytes → Option Bytes → Bool → Option Bytes → Option Handshake
  unfolding send_challenge
  handshake none random wrote second = some dropped
  handshake (some raw) random wrote second = elim (j.decode_hello raw) [
    | none ↦ some (refused (codes "expected hello"))
    | some hello ↦
        if not (bytes_eq hello.kind msg_hello)
        then some (refused (codes "expected hello"))
        else if not (verify_hello c hello)
        then some (refused (codes "nodeId/publicKey mismatch"))
        else send_challenge hello random wrote second
  ]
