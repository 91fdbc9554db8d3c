-- ===== src/Wire.antt =====
-- JSON on the wire. `encoding/json` is a parameter: for each Go type that the program marshals or
-- unmarshals there is a function, with `none` for an error of `json.Unmarshal`. The error's text is
-- read in one place only, where it is the other side of a sum.
use rtc_bridge.Prelude.{All, Bytes, IsBytes, List, Map, Option, some, ◌<◌, ◌≡◌, ◌⊎◌}
use rtc_bridge.Protocol.Messages.{
  Envelope, HelloMsg, ChallengeMsg, RegisterMsg, OfferMsg, AnswerMsg, CloseMsg,
}

-- The body of a request to /offer; a field that the JSON lacks is empty.
pub record OfferRequest : Type 0 where
  pub node_id : Bytes
  pub offer : Bytes

-- An entry of the reply to /nodes.
pub record NodeInfo : Type 0 where
  pub node_id : Bytes
  pub services : List Bytes

pub record Codec : Type 0 where
  pub decode_envelope : Bytes → Option Envelope
  pub encode_hello : HelloMsg → Bytes
  pub decode_hello : Bytes → Option HelloMsg
  pub encode_challenge : ChallengeMsg → Bytes
  pub decode_challenge : Bytes → Option ChallengeMsg
  pub encode_register : RegisterMsg → Bytes
  pub decode_register : Bytes → Option RegisterMsg
  pub encode_offer : OfferMsg → Bytes
  pub decode_offer : Bytes → Option OfferMsg
  pub encode_answer : AnswerMsg → Bytes
  pub decode_answer : Bytes → Option AnswerMsg
  pub encode_close : CloseMsg → Bytes
  pub decode_offer_request : Bytes → OfferRequest ⊎ Bytes
  -- `Encode` of a `json.RawMessage`, with the line feed that it ends with.
  pub encode_raw : Bytes → Bytes
  pub encode_names : List Bytes → Bytes
  pub encode_nodes : List NodeInfo → Bytes
  pub encode_services : Map (List Bytes) → Bytes

-- An ASCII string, which JSON carries unchanged.
abbrev pub IsAscii : Bytes → Type 0
IsAscii = All (λ b. b < 128)

-- What the package documents, as far as the theorems use it: a value whose strings are ASCII, and
-- whose byte slices are bytes, comes back from its JSON, and its type field can be read alone.
pub record IsCodec (j : Codec) : Type 0 where
  pub hello_trip :
      (m : HelloMsg)
      → IsAscii m.kind
      → IsAscii m.node_id
      → IsBytes m.public_key
      → IsBytes m.commitment
      → j.decode_hello (j.encode_hello m) ≡ some m
  pub challenge_trip :
      (m : ChallengeMsg)
      → IsAscii m.kind
      → IsBytes m.r_coord
      → j.decode_challenge (j.encode_challenge m) ≡ some m
  pub register_trip :
      (m : RegisterMsg)
      → IsAscii m.kind
      → IsAscii m.node_id
      → IsBytes m.public_key
      → IsBytes m.r_node
      → IsBytes m.proof
      → All IsAscii m.services
      → j.decode_register (j.encode_register m) ≡ some m
