-- ===== src/Browser/Tests.antt =====
-- The theorems of the browser's library at concrete values.
use rtc_bridge.Prelude.{
  Bytes, List, [], arith, codes, false, if◌then◌else◌, refl, replicate, some, true, ℕ, ◌++◌, ◌+◌,
  ◌==◌, ◌∷◌, ◌≡◌,
}
use rtc_bridge.Hex.{hex_encode, from_hex_char}
use rtc_bridge.Script.{from_hex, parse_pairs, parse_byte, parse_trimmed, trim_start, leading_digits}
use rtc_bridge.Protocol.Registration.{xor_bytes}
use rtc_bridge.Node.Channel.{no_session, run_channel, trim_right}
use rtc_bridge.Node.Identity.{identity_from_priv_key}
use rtc_bridge.Browser.{Channel, verified, challenge_prefix, verify_identity}
use rtc_bridge.Browser.Honest.{verify_identity-replies, run_channel-verify_identity}
use rtc_bridge.Browser.Commands.{
  Happening, sends, receives, expires, resolved, no_listeners, run, times_waiting, times_settled,
  settled_of, run-accounted, exchanges-late,
}
use rtc_bridge.Browser.Connect.{Agrees, connect-Agrees}
use rtc_bridge.Browser.Genuine.{HasVerified, verify_identity-IsGenuine}
use rtc_bridge.Browser.Samples.{
  quote, subtle, subtle-IsSubtle, priv-IsSigner, services, world, r_client, own_id,
}
use rtc_bridge.Samples.{toy, toy-IsDigest, priv, priv-IsKey, r_node, joint, lettered}

abbrev channel : Channel
channel = record { node_id = own_id; connected = false }

run_channel-verify_identity_example :
    (reply1 reply2 : Bytes) × (cmd1 cmd2 : Bytes) × (verify_identity subtle true channel r_client
        (some reply1)
        (some reply2)
      ≡ (cmd1 ∷ cmd2 ∷ [], some (verified own_id (hex_encode (replicate 32 7)))))
run_channel-verify_identity_example =
    let (cmd1, cmd2, reply1, reply2, runs, verifies) =
      run_channel-verify_identity toy-IsDigest subtle-IsSubtle lettered quote priv-IsKey
        priv-IsSigner services world world no_session r_client r_node [] channel (omega arith) refl
        (omega arith) refl refl refl refl in
    (reply1, reply2, cmd1, cmd2, verifies)

verify_identity-IsGenuine_example :
    HasVerified subtle channel r_client
      (some (codes "challenge-response " ++ hex_encode r_node))
      (some (
        codes "proof "
        ++ hex_encode (replicate 32 7)
        ++ codes " "
        ++ hex_encode (toy.sign priv (challenge_prefix ++ joint))))
      ((codes "challenge " ++ hex_encode (toy.sum256 r_client))
        ∷ (codes "verify " ++ hex_encode r_client)
        ∷ [])
      own_id
      (hex_encode (replicate 32 7))
unfolding xor_bytes
verify_identity-IsGenuine_example =
    verify_identity-IsGenuine subtle true channel r_client
      (some (codes "challenge-response " ++ hex_encode r_node))
      (some (
        codes "proof "
        ++ hex_encode (replicate 32 7)
        ++ codes " "
        ++ hex_encode (toy.sign priv (challenge_prefix ++ joint))))
      ((codes "challenge " ++ hex_encode (toy.sum256 r_client))
        ∷ (codes "verify " ++ hex_encode r_client)
        ∷ [])
      own_id (hex_encode (replicate 32 7))
      (verify_identity-replies toy-IsDigest subtle-IsSubtle priv-IsKey priv-IsSigner channel
        r_client r_node joint (omega arith) refl refl refl refl)

-- Characters that are no digits do not make `fromHex` fail.
no_digits : from_hex (codes "zz1g") ≡ some (0 ∷ 1 ∷ [])
unfolding from_hex parse_pairs parse_byte parse_trimmed trim_start leading_digits from_hex_char
no_digits = refl

-- Two calls in flight; the first one times out, and a message comes.
abbrev overlap : List Happening
overlap = sends (codes "ping") ∷ sends (codes "list") ∷ expires 0 ∷ receives (codes "pong") ∷ []

run-accounted_example :
    times_waiting 1 (run overlap no_listeners).waiting
      + times_settled 1 (run overlap no_listeners).settled
    ≡ 1
unfolding run
run-accounted_example = run-accounted overlap 1

-- The call 0 sends `ping` and times out; the call 2 is resolved with the reply to the command of the
-- call 1.
abbrev commands : ℕ → Bytes
commands n = if n == 0 then codes "ping" else if n == 1 then codes "list" else codes "connect echo"

abbrev replies : ℕ → Bytes → Bytes
replies n cmd = codes "re: " ++ cmd

exchanges-late_example :
    settled_of 2
      (run
        (sends (codes "ping")
          ∷ expires 0
          ∷ sends (codes "list")
          ∷ receives (codes "re: ping")
          ∷ sends (codes "connect echo")
          ∷ receives (codes "re: list")
          ∷ [])
        no_listeners).settled
    ≡ some (resolved (codes "re: list"))
exchanges-late_example =
    exchanges-late commands replies no_listeners 2 1 refl (omega arith) (omega arith)

connect-Agrees_example :
    Agrees toy lettered quote (identity_from_priv_key toy priv) services (codes "echo") channel (
      run_channel toy lettered quote
        (identity_from_priv_key toy priv)
        services
        ((codes "connect " ++ codes "echo", world) ∷ [])
        no_session)
unfolding trim_right
connect-Agrees_example =
    connect-Agrees toy lettered quote (identity_from_priv_key toy priv) services world [] no_session
      (codes "echo") channel refl refl
