-- ===== src/Protocol/Messages.antt =====
-- protocol/protocol.go: the message types. A `json.RawMessage` is the text of a JSON value.
use rtc_bridge.Prelude.{Bytes, List, codes}

-- `MsgType` is a string; a message may carry any.
abbrev pub MsgType : Type 0
MsgType = Bytes

abbrev pub msg_hello : MsgType
msg_hello = codes "hello"

abbrev pub msg_challenge : MsgType
msg_challenge = codes "challenge"

abbrev pub msg_register : MsgType
msg_register = codes "register"

abbrev pub msg_offer : MsgType
msg_offer = codes "offer"

abbrev pub msg_answer : MsgType
msg_answer = codes "answer"

abbrev pub msg_close : MsgType
msg_close = codes "close"

pub record Envelope : Type 0 where
  pub kind : MsgType

pub record HelloMsg : Type 0 where
  pub kind : MsgType
  pub node_id : Bytes
  pub public_key : Bytes
  pub commitment : Bytes

pub record ChallengeMsg : Type 0 where
  pub kind : MsgType
  pub r_coord : Bytes

pub record RegisterMsg : Type 0 where
  pub kind : MsgType
  pub node_id : Bytes
  pub public_key : Bytes
  pub r_node : Bytes
  pub proof : Bytes
  pub services : List Bytes

pub record OfferMsg : Type 0 where
  pub kind : MsgType
  pub request_id : Bytes
  pub offer : Bytes

pub record AnswerMsg : Type 0 where
  pub kind : MsgType
  pub request_id : Bytes
  pub answer : Bytes

pub record CloseMsg : Type 0 where
  pub kind : MsgType
