-- ===== src/Node/Coordination.antt =====
-- node/coord_client.go: the connection of a node to a coordinator.
pub mod Honest
pub mod Panics
pub mod Backoff
mod Tests
use rtc_bridge.Prelude.{
  Bool, Bytes, List, Option, [], bytes_eq, if◌then◌else◌, none, not, some, ◌>>=◌, ◌∷◌,
}
use rtc_bridge.Protocol.Messages.{
  HelloMsg, ChallengeMsg, RegisterMsg, OfferMsg, AnswerMsg, CloseMsg, msg_hello, msg_challenge,
  msg_register, msg_offer, msg_answer, msg_close,
}
use rtc_bridge.Protocol.Crypto.{Crypto}
use rtc_bridge.Protocol.Registration.{sign_registration}
use rtc_bridge.Wire.{Codec}
use rtc_bridge.Node.Identity.{Identity}

-- The errors of `connectCoordinator` before its read loop.
pub data ConnectError : Type 0 where
  dial_failed : ConnectError
  rand_failed : ConnectError
  hello_unsent : ConnectError
  challenge_unread : ConnectError
  challenge_expected : Bytes → ConnectError
  register_unsent : ConnectError

-- What the calls into the network and the random source return.
pub record Link : Type 0 where
  pub dialed : Bool
  pub random : Option Bytes
  pub hello_written : Bool
  pub challenge : Option Bytes
  pub register_written : Bool

-- The messages written, and the error, `none` when the node is registered.
pub record Attempt : Type 0 where
  pub sent : List Bytes
  pub error : Option ConnectError

module _ (c : Crypto) (id : Identity) where
  abbrev pub hello_msg : Bytes → HelloMsg
  hello_msg r_node = record {
    kind = msg_hello;
    node_id = id.node_id;
    public_key = id.pub_key;
    commitment = c.sum256 r_node;
  }

  -- `none` is a panic in `SignRegistration`.
  unfoldable pub register_msg : List Bytes → Bytes → ChallengeMsg → Option RegisterMsg
  register_msg services r_node chal = do
    proof ← sign_registration c id.priv_key r_node chal.r_coord
    some (record {
      kind = msg_register;
      node_id = id.node_id;
      public_key = id.pub_key;
      r_node = r_node;
      proof = proof;
      services = services;
    })

module _ (c : Crypto) (j : Codec) (id : Identity) where
  module _ (services : List Bytes) (link : Link) where
    -- Step 3.
    unfoldable pub send_register : Bytes → ChallengeMsg → Option Attempt
    unfolding register_msg
    send_register r_node chal =
        let hello = j.encode_hello (hello_msg c id r_node) in
        (register_msg c id services r_node chal >>= λ reg. some (
          if not link.register_written
          then record { sent = hello ∷ []; error = some register_unsent }
          else record { sent = hello ∷ j.encode_register reg ∷ []; error = none }))

    -- Step 2.
    unfoldable pub read_challenge : Bytes → Option Bytes → Option Attempt
    unfolding send_register
    read_challenge r_node none = some (record {
      sent = j.encode_hello (hello_msg c id r_node) ∷ [];
      error = some challenge_unread;
    })
    read_challenge r_node (some raw) =
        let hello = j.encode_hello (hello_msg c id r_node) in
        let unexpected : Attempt = record {
          sent = hello ∷ [];
          error = some (challenge_expected raw);
        } in
        elim (j.decode_challenge raw) [
          | none ↦ some unexpected
          | some chal ↦
              if not (bytes_eq chal.kind msg_challenge)
              then some unexpected
              else send_register r_node chal
        ]

    -- `connectCoordinator` up to its read loop; `none` is a panic.
    unfoldable pub connect_coordinator : Option Attempt
    unfolding read_challenge
    connect_coordinator =
        if not link.dialed
        then some (record { sent = []; error = some dial_failed })
        else elim link.random [
          | none ↦ some (record { sent = []; error = some rand_failed })
          | some r_node ↦
              if not link.hello_written
              then some (record { sent = []; error = some hello_unsent })
              else read_challenge r_node link.challenge
        ]

module _ (j : Codec) where
  -- The read loop: the offers that it starts `handleCoordOffer` with, for the messages that arrive
  -- up to the first error.
  unfoldable pub read_loop : List Bytes → List OfferMsg
  read_loop [] = []
  read_loop (raw ∷ frames) =
      let rest = read_loop frames in
      elim (j.decode_envelope raw) [
        | none ↦ rest
        | some env ↦
            if bytes_eq env.kind msg_offer
            then elim (j.decode_offer raw) [ none ↦ rest | some msg ↦ msg ∷ rest ]
            else rest
      ]

  -- `handleCoordOffer`: the message written, if any. The session descriptions, their JSON and
  -- `handleOffer`, which runs the WebRTC library, are parameters.
  module _ {Sdp : Type 0} (decode_sdp : Bytes → Option Sdp) (handle_offer : Sdp → Option Sdp)
      (encode_sdp : Sdp → Option Bytes) where
    unfoldable pub handle_coord_offer : OfferMsg → Option Bytes
    handle_coord_offer msg = do
      offer ← decode_sdp msg.offer
      answer ← handle_offer offer
      answer_json ← encode_sdp answer
      some (
          j.encode_answer
            (record { kind = msg_answer; request_id = msg.request_id; answer = answer_json }))

  -- What the goroutine next to the read loop waits for, and what it writes.
  pub data Tick : Type 0 where
    ticked : Tick
    stopped : Tick
    cancelled : Tick

  pub data Frame : Type 0 where
    ping : Frame
    text : Bytes → Frame
    closed : Frame

  unfoldable pub ping_loop : List Tick → List Frame
  ping_loop [] = []
  ping_loop (ticked ∷ ticks) = ping ∷ ping_loop ticks
  ping_loop (stopped ∷ ticks) = []
  ping_loop (cancelled ∷ ticks) = text (j.encode_close (record { kind = msg_close })) ∷ closed ∷ []
