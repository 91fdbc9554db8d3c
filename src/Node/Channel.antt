-- ===== src/Node/Channel.antt =====
-- node/main.go: the command loop that `handleOffer` runs on an open data channel.
use rtc_bridge.Prelude.{
  Bool, Bytes, List, Map, Option, [], bytes_eq, codes, has_prefix, if◌then◌else◌, length, lookup,
  none, not, some, sort_strings, trim_prefix, ℕ, ◌++◌, ◌==◌, ◌>>=◌, ◌||◌, ◌∷◌,
}
pub mod Proofs
pub mod Loop
pub mod Cases
pub mod Runs
pub mod Bridging
pub mod Honest
use rtc_bridge.Protocol.Crypto.{Crypto}
use rtc_bridge.Protocol.Registration.{xor_bytes}
use rtc_bridge.Wire.{Codec}
use rtc_bridge.Hex.{hex_encode, hex_decode}
use rtc_bridge.Node.Identity.{Identity, sign}

-- `dcChallengePrefix`.
abbrev pub dc_challenge_prefix : Bytes
dc_challenge_prefix = codes "rtc-bridge:dc-challenge:"

-- A carriage return or a line feed.
abbrev pub is_line_end : ℕ → Bool
is_line_end c = c == 13 || c == 10

abbrev pub drop_line_end : ℕ → Bytes → Bytes
drop_line_end c [] = if is_line_end c then [] else c ∷ []
drop_line_end c (d ∷ s) = c ∷ d ∷ s

-- `strings.TrimRight(s, "\r\n")`.
unfoldable pub trim_right : Bytes → Bytes
trim_right [] = []
trim_right (c ∷ s) = drop_line_end c (trim_right s)

-- The loop's variables `commitment` and `rNode`.
pub record Session : Type 0 where
  pub commitment : Option Bytes
  pub r_node : Option Bytes

abbrev pub no_session : Session
no_session = record { commitment = none; r_node = none }

-- What the world answers while a command is handled: the bytes of `rand.Read`, or its failure, and
-- the error of `net.Dial` for a target, if there is one.
pub record World : Type 0 where
  pub random : Option Bytes
  pub dial_error : Bytes → Option Bytes

-- What is done to the data channel: `SendText`, `Send`, `Close`.
pub data Output : Type 0 where
  text_out : Bytes → Output
  binary_out : Bytes → Output
  close_out : Output

-- How a round of the loop ends: the loop goes on, returns, or returns after `bridge` has been
-- started for this target.
pub data After : Type 0 where
  goes_on : Session → After
  ends : After
  bridges : Bytes → After

-- `make` and `append` of the keys of the services.
unfoldable pub service_names : Map Bytes → List Bytes
service_names [] = []
service_names ((k, v) ∷ services) = k ∷ service_names services

-- What was done before comes first.
abbrev pub prepend : List Output → Option (List Output × After) → Option (List Output × After)
prepend out none = none
prepend out (some (later, end)) = some (out ++ later, end)

module _ (c : Crypto) (j : Codec) (quote : Bytes → Bytes) (id : Identity)
    (services : Map Bytes) where
  -- The case `challenge`.
  unfoldable pub on_challenge : World → Session → Bytes → List Output × After
  on_challenge w s commit_hex = elim (hex_decode commit_hex) [
    | none ↦ (text_out (codes "err: invalid commitment") ∷ [], goes_on s)
    | some commitment ↦
        if not (length commitment == 32)
        then (text_out (codes "err: invalid commitment") ∷ [], goes_on s)
        else elim w.random [
          | none ↦ (text_out (codes "err: internal error") ∷ [], ends)
          | some r_node ↦ (
            text_out (codes "challenge-response " ++ hex_encode r_node) ∷ [],
            goes_on (record { commitment = some commitment; r_node = some r_node }),
          )
        ]
  ]

  -- The reply to an opening that fits.
  abbrev pub proof_text : Bytes → Bytes
  proof_text joint =
      codes "proof "
      ++ hex_encode id.pub_key
      ++ codes " "
      ++ hex_encode (sign c id (dc_challenge_prefix ++ joint))

  -- The case `verify`, from the two variables on; `none` is a panic in `xorBytes`.
  unfoldable pub on_opening : Session → Bytes → Bytes → Bytes → Option (List Output × After)
  on_opening s commitment r_node r_client_hex = elim (hex_decode r_client_hex) [
    | none ↦ some (text_out (codes "err: invalid opening") ∷ [], goes_on s)
    | some r_client ↦
        if not (length r_client == 32)
        then some (text_out (codes "err: invalid opening") ∷ [], goes_on s)
        else if not (bytes_eq (c.sum256 r_client) commitment)
        then some (text_out (codes "err: commitment mismatch") ∷ [], goes_on no_session)
        else (xor_bytes (length r_client) r_client r_node >>= λ joint.
            some (text_out (proof_text joint) ∷ [], goes_on no_session))
  ]

  -- The case `verify`.
  unfoldable pub on_verify : Session → Bytes → Option (List Output × After)
  unfolding on_opening
  on_verify s r_client_hex = elim s.commitment [
    | none ↦ some (text_out (codes "err: no challenge in progress") ∷ [], goes_on s)
    | some commitment ↦ elim s.r_node [
      | none ↦ some (text_out (codes "err: no challenge in progress") ∷ [], goes_on s)
      | some r_node ↦ on_opening s commitment r_node r_client_hex
    ]
  ]

  -- The case `connect`.
  unfoldable pub on_connect : World → Bytes → List Output × After
  on_connect w svc_name = elim (lookup svc_name services) [
    | none ↦ (text_out (codes "err: unknown service " ++ quote svc_name) ∷ close_out ∷ [], ends)
    | some target ↦ elim (w.dial_error target) [
      | some failure ↦ (text_out (codes "err: dial failed: " ++ failure) ∷ close_out ∷ [], ends)
      | none ↦ (text_out (codes "ok") ∷ [], bridges target)
    ]
  ]

  -- The switch over the command's text.
  unfoldable pub on_command : World → Session → Bytes → Option (List Output × After)
  on_command w s text =
      if bytes_eq text (codes "ping")
      then some (text_out (codes "pong") ∷ [], goes_on s)
      else if bytes_eq text (codes "list")
      then some
          (binary_out (j.encode_names (sort_strings (service_names services))) ∷ [], goes_on s)
      else if has_prefix text (codes "challenge ")
      then some (on_challenge w s (trim_prefix text (codes "challenge ")))
      else if has_prefix text (codes "verify ")
      then on_verify s (trim_prefix text (codes "verify "))
      else if has_prefix text (codes "connect ")
      then some (on_connect w (trim_prefix text (codes "connect ")))
      else some (text_out (codes "err: unknown command " ++ quote text) ∷ [], goes_on s)

  -- The loop over the messages that arrive, each with what the world answers; when they run out the
  -- channel `buf` has been closed and the loop returns.
  unfoldable pub run_channel : List (Bytes × World) → Session → Option (List Output × After)
  unfolding on_command on_challenge on_verify on_connect
  run_channel [] s = some ([], ends)
  run_channel ((raw, w) ∷ messages) s = elim (on_command w s (trim_right raw)) [
    | none ↦ none
    | some (out, goes_on s') ↦ prepend out (run_channel messages s')
    | some (out, ends) ↦ some (out, ends)
    | some (out, bridges target) ↦ some (out, bridges target)
  ]
