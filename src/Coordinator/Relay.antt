-- ===== src/Coordinator/Relay.antt =====
-- coordinator/main.go: the relay of offers and answers. `handleOffer` is cut at the places where
-- other goroutines can run between: its parts are functions, and the module `System` interleaves
-- them. The read loop of `handleNodeWS` is here too.
use rtc_bridge.Prelude.{
  Bool-cases, Bytes, Option-cases, [], bytes_eq, codes, delete, if◌then◌else◌, inl, inr, insert,
  length, lookup, none, not, some, take, update, ℕ, ◌++◌, ◌+◌, ◌==◌, ◌^◌, ◌||◌, ◌∷◌, ◌≡◌, ◌⊎◌,
}
use rtc_bridge.Protocol.Messages.{OfferMsg, AnswerMsg, msg_offer, msg_answer, msg_close}
use rtc_bridge.Wire.{Codec, OfferRequest}
use rtc_bridge.Coordinator.State.{
  Node, Coordinator, text_frame, close_frame, close_normal_closure, node_drop_after, set_node,
  write_frame,
}

pub record Response : Type 0 where
  pub status : ℕ
  pub body : Bytes

-- `http.Error(w, text, status)`.
abbrev pub http_error : Bytes → ℕ → Response
http_error text status = record { status = status; body = text ++ 10 ∷ [] }

-- A request as the handlers see it: its method, and what `io.ReadAll` returns for its body without
-- the limit, the text or an error's message.
pub record Request : Type 0 where
  pub method : Bytes
  pub body : Bytes ⊎ Bytes

-- What the handler has in hand when it has found the node: the pointer, the new request id and the
-- offer. The channel is the number by which the handler goes.
pub record Offer : Type 0 where
  pub node : ℕ
  pub request_id : Bytes
  pub offer : Bytes

-- `1<<20`, the limit on the body.
abbrev pub body_limit : ℕ
body_limit = 2 ^ 20

module _ (j : Codec) (quote : Bytes → Bytes) where
  -- The handler from the decoded request to the lookup of the node.
  unfoldable pub find_node : OfferRequest → Bytes → Coordinator → Response ⊎ Offer
  find_node req request_id c =
      if bytes_eq req.node_id [] || length req.offer == 0
      then inl (http_error (codes "nodeId and offer are required") 400)
      else elim (lookup req.node_id c.nodes) [
        | none ↦ inl (http_error (codes "node " ++ quote req.node_id ++ codes " not found") 404)
        | some p ↦ inr (record { node = p; request_id = request_id; offer = req.offer })
      ]

  -- `handleOffer` up to the new channel: an early response, or the handler's local state.
  unfoldable pub begin_offer : Request → Bytes → Coordinator → Response ⊎ Offer
  unfolding find_node
  begin_offer r request_id c =
      if not (bytes_eq r.method (codes "POST"))
      then inl (http_error (codes "POST only") 405)
      else elim r.body [
        | inr failure ↦ inl (http_error failure 400)
        | inl whole ↦ elim (j.decode_offer_request (take body_limit whole)) [
          | inr failure ↦ inl (http_error (codes "bad JSON: " ++ failure) 400)
          | inl req ↦ find_node req request_id c
        ]
      ]

-- `n.pending[requestID] = p`, with `ch` for the channel of `p`.
unfoldable pub enter_pending : ℕ → Offer → Node → Coordinator → Coordinator
enter_pending ch o n c = set_node o.node (record n { pending = insert o.request_id ch n.pending }) c

-- `delete(n.pending, requestID)`.
unfoldable pub leave_pending : Offer → Node → Coordinator → Coordinator
leave_pending o n c = set_node o.node (record n { pending = delete o.request_id n.pending }) c

-- The offer that is forwarded.
abbrev pub offer_msg : Offer → OfferMsg
offer_msg o = record { kind = msg_offer; request_id = o.request_id; offer = o.offer }

-- `n.conn.WriteMessage`, where it succeeds.
unfoldable pub forward_offer : Codec → Offer → Coordinator → Coordinator
forward_offer j o c = write_frame o.node (text_frame (j.encode_offer (offer_msg o))) c

abbrev pub bad_gateway : Response
bad_gateway = http_error (codes "failed to forward offer to node") 502

abbrev pub gateway_timeout : Response
gateway_timeout = http_error (codes "timeout waiting for answer from node") 504

-- The case `ans := <-p.ch` of the select: the channel is drained, the exchange recorded, and the
-- answer's JSON is the response.
unfoldable pub take_answer : Codec → ℕ → AnswerMsg → ℕ → Coordinator → Coordinator × Response
take_answer j ch ans now c = (
  record c { buffers = update c.buffers ch none; exchanges = now ∷ c.exchanges },
  record { status = 200; body = j.encode_raw ans.answer },
)

-- How a round of the read loop ends: it goes on, the handler returns, or the goroutine is stuck in
-- a send to a full channel.
pub data Next : Type 0 where
  keep_reading leave stuck : Next

-- `p.ch <- ans`.
unfoldable pub send_answer : ℕ → AnswerMsg → Coordinator → Coordinator × Next
send_answer ch ans c = elim (c.buffers ch) [
  | none ↦ (record c { buffers = update c.buffers ch (some ans) }, keep_reading)
  | some full ↦ (c, stuck)
]

-- The case `MsgAnswer`, with a decoded answer.
unfoldable pub on_answer : ℕ → Node → AnswerMsg → Coordinator → Coordinator × Next
on_answer p n ans c = elim (lookup ans.request_id n.pending) [
  | none ↦ (c, keep_reading)
  | some ch ↦
      send_answer ch ans (set_node p (record n { pending = delete ans.request_id n.pending }) c)
]

-- A round of the read loop of the node behind `p`, from a message that was read on.
unfoldable pub on_message : Codec → ℕ → Node → Bytes → Coordinator → Coordinator × Next
on_message j p n raw c = elim (j.decode_envelope raw) [
  | none ↦ (c, keep_reading)
  | some env ↦
      if bytes_eq env.kind msg_answer
      then elim (j.decode_answer raw) [ none ↦ (c, keep_reading) | some ans ↦ on_answer p n ans c ]
      else if bytes_eq env.kind msg_close
      then (write_frame p (close_frame close_normal_closure []) c, leave)
      else (c, keep_reading)
]

-- `conn.SetReadDeadline` at the top of the read loop.
unfoldable pub next_read : ℕ → Node → ℕ → Coordinator → Coordinator
next_read p n now c = set_node p (record n { deadline = now + node_drop_after }) c

-- The ways that a round of the read loop can go.
pub on_message_cases {ℓ} :
    (P : Coordinator × Next → Type ℓ) (j : Codec) (p : ℕ) (n : Node) (raw : Bytes) (c : Coordinator)
    → P (c, keep_reading)
    → P (write_frame p (close_frame close_normal_closure []) c, leave)
    → ((ans : AnswerMsg) → j.decode_answer raw ≡ some ans → P (on_answer p n ans c))
    → P (on_message j p n raw c)
unfolding on_message
on_message_cases P j p n raw c ignored closed answered =
    elim (Option-cases (j.decode_envelope raw)) [
      | inl e ↦ rw (e, on_message) ignored
      | inr (env, e) ↦
          rw (e, on_message)
            (elim (Bool-cases (bytes_eq env.kind msg_answer)) [
              | inl is ↦ rw is (elim (Option-cases (j.decode_answer raw)) [
                | inl e' ↦ rw e' ignored
                | inr (ans, e') ↦ rw e' (answered ans e')
              ])
              | inr is_not ↦ rw is_not (elim (Bool-cases (bytes_eq env.kind msg_close)) [
                | inl close ↦ rw close closed
                | inr other ↦ rw other ignored
              ])
            ])
    ]

pub on_answer_cases {ℓ} :
    (P : Coordinator × Next → Type ℓ) (p : ℕ) (n : Node) (ans : AnswerMsg) (c : Coordinator)
    → (lookup ans.request_id n.pending ≡ none → P (c, keep_reading))
    → ((ch : ℕ)
        → lookup ans.request_id n.pending ≡ some ch
        → P (
            send_answer ch ans
              (set_node p (record n { pending = delete ans.request_id n.pending }) c)))
    → P (on_answer p n ans c)
unfolding on_answer
on_answer_cases P p n ans c ignored found = elim (Option-cases (lookup ans.request_id n.pending)) [
  | inl e ↦ rw (e, on_answer) (ignored e)
  | inr (ch, e) ↦ rw (e, on_answer) (found ch e)
]
