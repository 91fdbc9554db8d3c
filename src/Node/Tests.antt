-- ===== src/Node/Tests.antt =====
-- The theorems of the node at concrete values.
use rtc_bridge.Prelude.{
  Bytes, Map, [], bytes_eq, codes, has_prefix, none, refl, replicate, some, trim_prefix, ◌++◌, ◌∷◌,
  ◌≢◌,
}
use rtc_bridge.Protocol.Registration.{xor_bytes}
use rtc_bridge.Hex.{hex_encode, hex_decode}
use rtc_bridge.Node.Identity.{Identity, identity_from_priv_key, sign}
use rtc_bridge.Node.Channel.{
  Session, no_session, World, goes_on, dc_challenge_prefix, on_command, on_verify, on_opening,
  run_channel,
}
use rtc_bridge.Node.Channel.Proofs.{IsOpened, on_command-proof}
use rtc_bridge.Node.Channel.Runs.{run_channel-returns}
use rtc_bridge.Samples.{toy, priv, r_node, joint, lettered, first_32}

abbrev quote : Bytes → Bytes
quote s = s

abbrev id : Identity
id = identity_from_priv_key toy priv

abbrev services : Map Bytes
services = (codes "echo", codes "127.0.0.1:7777") ∷ []

abbrev world : World
world = record { random = some r_node; dial_error = λ target. none }

abbrev r_client : Bytes
r_client = replicate 32 5

abbrev proof_tail : Bytes
proof_tail =
    hex_encode (replicate 32 7)
    ++ codes " "
    ++ hex_encode (replicate 32 7 ++ dc_challenge_prefix ++ joint)

abbrev opened : Session
opened = record { commitment = some (first_32 r_client); r_node = some r_node }

on_command-proof_example :
    IsOpened toy id opened
      (codes "verify " ++ hex_encode r_client)
      (codes "proof " ++ proof_tail)
      (goes_on no_session)
unfolding on_command on_verify on_opening hex_encode hex_decode xor_bytes sign
    identity_from_priv_key bytes_eq has_prefix trim_prefix
on_command-proof_example =
    on_command-proof toy lettered quote id services world opened
      (codes "verify " ++ hex_encode r_client) proof_tail [] (goes_on no_session) refl

run_channel-returns_example :
    run_channel toy lettered quote id services ((codes "verify zz", world) ∷ []) no_session ≢ none
run_channel-returns_example =
    run_channel-returns toy lettered quote id services ((codes "verify zz", world) ∷ [])
      (λ r e. cc, tt)
