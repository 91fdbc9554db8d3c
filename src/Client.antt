-- ===== src/Client.antt =====
-- cli-client/main.go: the choice of a node, the offer, and the exchange of messages.
pub mod Handshake
pub mod Choice
pub mod Program
mod Tests
use rtc_bridge.Prelude.{
  Bool, Bool-cases, Bytes, List, List-cases, Map, Option, Option-cases, [], arith, bytes_eq, codes,
  false, if◌then◌else◌, inl, inr, lookup, none, not, some, true, ◌&&◌, ◌++◌, ◌==◌, ◌∷◌, ◌≡◌,
}
use rtc_bridge.Coordinator.Relay.{Response}

-- How a part of the program ends: it goes on with a value, or exits with code 1.
pub data Outcome {ℓ} (A : Type ℓ) : Type ℓ where
  goes_on : A → Outcome A
  exits : Outcome A

-- What the HTTP client and `encoding/json` do: a request's response, `none` for an error, and the
-- decoding and encoding of the bodies. The answer's type is that of the WebRTC library.
pub record Web (Sdp : Type 0) : Type 0 where
  pub get_services : Option Response
  pub post_offer : Bytes → Option Response
  pub decode_services : Bytes → Option (Map (List Bytes))
  pub encode_offer : Bytes → Bytes → Bytes → Bytes
  pub decode_answer : Bytes → Option Sdp

module _ {Sdp : Type 0} (w : Web Sdp) where
  -- The first node that offers the service.
  unfoldable pub first_node : Bytes → Map (List Bytes) → Outcome Bytes
  first_node service svc_map = elim (lookup service svc_map) [
    | none ↦ exits
    | some [] ↦ exits
    | some (id ∷ ids) ↦ goes_on id
  ]

  -- `postViaCoordinator` up to the node's id.
  unfoldable pub resolve : Bytes → Bytes → Outcome Bytes
  unfolding first_node
  resolve service (x ∷ node_id) = goes_on (x ∷ node_id)
  resolve service [] = elim w.get_services [
    | none ↦ exits
    | some resp ↦ if not (resp.status == 200) then exits else elim (w.decode_services resp.body) [
      | none ↦ exits
      | some svc_map ↦ first_node service svc_map
    ]
  ]

  -- The rest of `postViaCoordinator`.
  unfoldable pub post : Bytes → Bytes → Bytes → Outcome Sdp
  post service node_id offer = elim (w.post_offer (w.encode_offer service node_id offer)) [
    | none ↦ exits
    | some resp ↦
        if not (resp.status == 200)
        then exits
        else elim (w.decode_answer resp.body) [ none ↦ exits | some answer ↦ goes_on answer ]
  ]

  -- `postViaCoordinator`.
  unfoldable pub post_via_coordinator : Bytes → Bytes → Bytes → Outcome Sdp
  unfolding resolve post
  post_via_coordinator service node_id offer = elim (resolve service node_id) [
    | exits ↦ exits
    | goes_on id ↦ post service id offer
  ]

-- A message, already without the blanks around it, with what becomes of it: whether it can be sent,
-- and the reply within five seconds, if there is one.
pub record Exchange : Type 0 where
  pub msg : Bytes
  pub sendable : Bool
  pub reply : Option Bytes

-- The loop over the messages: what is sent, and the variable `ok` at the end.
unfoldable pub send_messages : List Exchange → Bool → List Bytes × Bool
send_messages [] ok = ([], ok)
send_messages (e ∷ es) ok =
    let skipped = send_messages es ok in
    let failed = send_messages es false in
    let sent = e.msg ++ codes "\n" in
    elim e.msg [
      | [] ↦ skipped
      | x ∷ msg ↦ if not e.sendable then failed else elim e.reply [
        | some reply ↦ (sent ∷ skipped.0, skipped.1)
        | none ↦ (sent ∷ failed.0, failed.1)
      ]
    ]

-- The handshake: whether the reply to the service's name lets the client go on.
unfoldable pub handshake_ok : Option Bytes → Bool
handshake_ok none = false
handshake_ok (some ack) = bytes_eq ack (codes "ok")

-- A message that is sent and answered, or is empty and left out.
abbrev pub passes : Exchange → Bool
passes e = elim e.msg [
  | [] ↦ true
  | x ∷ msg ↦ e.sendable && elim e.reply [ none ↦ false | some reply ↦ true ]
]

abbrev pub all_pass : List Exchange → Bool
all_pass [] = true
all_pass (e ∷ es) = passes e && all_pass es

send_messages_ok : (es : List Exchange) (ok : Bool) → (send_messages es ok).1 ≡ (ok && all_pass es)
unfolding send_messages
send_messages_ok [] ok = ground arith
send_messages_ok (e ∷ es) ok = elim (List-cases e.msg) [
  | inl m ↦ rw (send_messages, m) (send_messages_ok es ok)
  | inr (c, m) ↦ elim (Bool-cases e.sendable) [
    | inr unsent ↦ rw (send_messages, m, unsent, send_messages_ok es false) (ground arith)
    | inl sent ↦ elim (Option-cases e.reply) [
      | inl silent ↦ rw (send_messages, m, sent, silent, send_messages_ok es false) (ground arith)
      | inr (r, answered) ↦ rw (send_messages, m, sent, answered) (send_messages_ok es ok)
    ]
  ]
]

-- The client ends with PASS just when every message that is not empty could be sent and got a reply.
pub send_messages-all_pass : (es : List Exchange) → (send_messages es true).1 ≡ all_pass es
send_messages-all_pass es = send_messages_ok es true
