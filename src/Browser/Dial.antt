-- ===== src/Browser/Dial.antt =====
-- client/src/index.ts: the class Coordinator, `dialOnce` and `dial`.
use rtc_bridge.Prelude.{
  Bool, Bytes, List, Map, Option, [], codes, false, if◌then◌else◌, leb, min, none, not, some, true,
  ℕ, ◌&&◌, ◌++◌, ◌==◌, ◌∷◌,
}
pub mod Ends
pub mod Journey
pub mod Whole
mod Tests
use rtc_bridge.Wire.{NodeInfo}
use rtc_bridge.Coordinator.Relay.{Response}
use rtc_bridge.Browser.{Channel}

-- How a promise ends, if it does.
pub data Promise (A : Type 0) : Type 0 where
  resolves : A → Promise A
  rejects pends : Promise A

-- `fetch` on a URL, without or with a body that is posted; `none` stands for a network error. The
-- JSON of a body: `r.json()` by what it is read for, and `JSON.stringify` of the node's id and the
-- session description, given as its JSON.
pub record Fetch (Sdp : Type 0) : Type 0 where
  pub get : Bytes → Option Response
  pub post : Bytes → Bytes → Option Response
  pub decode_nodes : Bytes → Option (List NodeInfo)
  pub decode_services : Bytes → Option (Map (List Bytes))
  pub encode_offer : Bytes → Bytes → Bytes
  pub decode_answer : Bytes → Option Sdp

-- `url.replace(/\/$/, '')`, in the constructor.
unfoldable pub base_of : Bytes → Bytes
base_of [] = []
base_of (c ∷ []) = if c == b'/' then [] else c ∷ []
base_of (c ∷ d ∷ url) = c ∷ base_of (d ∷ url)

-- `r.ok`.
abbrev pub is_ok : Response → Bool
is_ok r = leb 200 r.status && leb r.status 299

-- What a method of the class makes of the response.
unfoldable pub read_response : {A : Type 0} → (Bytes → Option A) → Option Response → Option A
read_response decode none = none
read_response decode (some r) = if not (is_ok r) then none else decode r.body

module _ {Sdp : Type 0} (f : Fetch Sdp) (base : Bytes) where
  -- The methods `nodes`, `services` and `_sendOffer`; `none` stands for an exception.
  unfoldable pub nodes : Option (List NodeInfo)
  unfolding read_response
  nodes = read_response f.decode_nodes (f.get (base ++ codes "/nodes"))

  unfoldable pub services : Option (Map (List Bytes))
  unfolding read_response
  services = read_response f.decode_services (f.get (base ++ codes "/services"))

  unfoldable pub send_offer : Bytes → Bytes → Option Sdp
  unfolding read_response
  send_offer node_id offer =
      read_response f.decode_answer (f.post (base ++ codes "/offer") (f.encode_offer node_id offer))

-- What becomes of a data channel: it opens, or the connection fails or is closed before, or neither.
pub data Fate : Type 0 where
  opens fails stays : Fate

-- What an RTCPeerConnection does: the offer that it makes, if it does; whether it takes it for its
-- local description; after how many milliseconds the candidates are complete, if ever; the JSON of
-- its local description after so many; whether it takes an answer; what becomes of its first channel.
pub record Peer (Sdp : Type 0) : Type 0 where
  pub offer : Option Sdp
  pub sets_local : Sdp → Bool
  pub gathered : Option ℕ
  pub local_description : ℕ → Bytes
  pub sets_remote : Sdp → Bool
  pub fate : Fate

-- How long the wait for the candidates lasts; no limit is `Infinity`.
abbrev pub wait_end : Option ℕ → Option ℕ → Option ℕ
wait_end none gathered = gathered
wait_end (some limit) none = some limit
wait_end (some limit) (some t) = some (min limit t)

-- A call of `dialOnce`: how its promise ends, with the field `_nodeId` of the Node that it resolves to,
-- and whether it has closed its peer connection.
pub record Attempt : Type 0 where
  pub ending : Promise Bytes
  pub closed : Bool

abbrev pub leaves : Promise Bytes → Attempt
leaves ending = record { ending = ending; closed = false }

module _ {Sdp : Type 0} (f : Fetch Sdp) (base node_id : Bytes) (p : Peer Sdp) where
  -- `dialOnce`, from the wait for the channel on.
  unfoldable pub await_open : Fate → Attempt
  await_open opens = leaves (resolves node_id)
  await_open fails = record { ending = rejects; closed = true }
  await_open stays = leaves pends

  -- From the end of the wait for the candidates on.
  unfoldable pub exchange_offer : ℕ → Attempt
  unfolding await_open
  exchange_offer t = elim (send_offer f base node_id (p.local_description t)) [
    | none ↦ leaves rejects
    | some answer ↦ if not (p.sets_remote answer) then leaves rejects else await_open p.fate
  ]

  -- `dialOnce`, with its limit.
  unfoldable pub dial_once : Option ℕ → Attempt
  unfolding exchange_offer
  dial_once limit = elim p.offer [
    | none ↦ leaves rejects
    | some offer ↦
        if not (p.sets_local offer)
        then leaves rejects
        else elim (wait_end limit p.gathered) [ none ↦ leaves pends | some t ↦ exchange_offer t ]
  ]

-- `dial`, with the peer connections of its two attempts: how its promise ends, and its attempts.
abbrev pub second_attempt : Attempt → Attempt → Promise Bytes × List Attempt
second_attempt first second = (second.ending, first ∷ second ∷ [])

unfoldable pub dial :
    {Sdp : Type 0} → Fetch Sdp → Bytes → Bytes → Peer Sdp → Peer Sdp → Promise Bytes × List Attempt
unfolding dial_once
dial f base node_id p q =
    let first = dial_once f base node_id p (some 1000) in
    elim first.ending [
      | resolves id ↦ (resolves id, first ∷ [])
      | pends ↦ (pends, first ∷ [])
      | rejects ↦ second_attempt first (dial_once f base node_id q none)
    ]

-- `createChannel` of a Node with this `_nodeId`, by what becomes of the channel.
unfoldable pub create_channel : Bytes → Fate → Promise Channel
create_channel node_id opens = resolves (record { node_id = node_id; connected = false })
create_channel node_id fails = rejects
create_channel node_id stays = pends
