-- ===== src/Coordinator/Broker.antt =====
-- What the coordinator is for its nodes and clients: a table of nodes, and calls that wait for an
-- answer of their node. Connections, locks, channels and pending maps do not occur.
use rtc_bridge.Prelude.{
  Bytes, List, Option, Star, [], bytes_eq, if◌then◌else◌, none, some, update, ℕ, ◌∷◌, ◌≡◌, ◌⊎◌,
}
use rtc_bridge.Protocol.Messages.{AnswerMsg}
use rtc_bridge.Coordinator.Relay.{Response, Offer, bad_gateway, gateway_timeout}

-- A call is for an offer, and has a response at its end.
pub data Call : Type 0 where
  waits : Offer → Call
  has_response : Offer → Response → Call

-- `said` is what the nodes have answered, each with the node that it came from.
pub record Broker : Type 0 where
  pub registered : Bytes → Option ℕ
  pub calls : ℕ → Option Call
  pub said : List (ℕ × AnswerMsg)

abbrev pub idle : Broker
idle = record { registered = λ id. none; calls = λ ch. none; said = [] }

abbrev pub IsSaid : List (ℕ × AnswerMsg) → ℕ → AnswerMsg → Type 0
IsSaid [] p ans = ⊥
IsSaid (x ∷ said) p ans = (x ≡ (p, ans)) ⊎ IsSaid said p ans

abbrev pub set_id : (Bytes → Option ℕ) → Bytes → Option ℕ → Bytes → Option ℕ
set_id f id v j = if bytes_eq id j then v else f j

-- `encode` is the JSON of an answer in a response.
pub data Step (encode : Bytes → Bytes) (b : Broker) (c : Broker) : Type 0 where
  -- A node takes an id, or an id is given up.
  joins :
      (id : Bytes) (p : ℕ)
      → c ≡ record b { registered = set_id b.registered id (some p) }
      → Step encode b c
  leaves :
      (id : Bytes) → c ≡ record b { registered = set_id b.registered id none } → Step encode b c
  -- A node answers, to whatever request.
  says : (p : ℕ) (ans : AnswerMsg) → c ≡ record b { said = (p, ans) ∷ b.said } → Step encode b c
  -- A new call, for a node that is registered.
  opens :
      (ch : ℕ) (o : Offer) (id : Bytes)
      → b.registered id ≡ some o.node
      → b.calls ch ≡ none
      → c ≡ record b { calls = update b.calls ch (some (waits o)) }
      → Step encode b c
  -- A call that waits gets what its node has answered to its request.
  answers :
      (ch : ℕ) (o : Offer) (ans : AnswerMsg)
      → b.calls ch ≡ some (waits o)
      → IsSaid b.said o.node ans
      → ans.request_id ≡ o.request_id
      → c ≡ record b {
        calls =
            update b.calls ch
              (some (has_response o (record { status = 200; body = encode ans.answer })));
      }
      → Step encode b c
  -- Or it ends without an answer.
  gives_up :
      (ch : ℕ) (o : Offer) (r : Response)
      → b.calls ch ≡ some (waits o)
      → (r ≡ bad_gateway) ⊎ (r ≡ gateway_timeout)
      → c ≡ record b { calls = update b.calls ch (some (has_response o r)) }
      → Step encode b c

abbrev pub Reach : (Bytes → Bytes) → Broker → Broker → Type 0
Reach encode = Star (Step encode)
