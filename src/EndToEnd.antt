-- ===== src/EndToEnd.antt =====
-- The offer of a client and the answer of a node on their way through the coordinator: `post` of the
-- client, `handleOffer` and the read loop of the coordinator, `handleCoordOffer` of the node.
pub mod Samples
mod Tests
use rtc_bridge.Prelude.{Bytes, List, Option, [], codes, inl, none, some, true, ℕ, ◌>>=◌, ◌∷◌, ◌≡◌}
use rtc_bridge.Protocol.Messages.{OfferMsg, AnswerMsg}
use rtc_bridge.Wire.{Codec, IsAscii}
use rtc_bridge.Coordinator.State.{Frame, text_frame, close_frame, pong_frame}
use rtc_bridge.Coordinator.Relay.{Request, Response}
use rtc_bridge.Coordinator.System.{
  System, Phase, finished, reads, requests, enters, forwards, receives, step, run,
}
use rtc_bridge.Node.Coordination.{read_loop, handle_coord_offer}
use rtc_bridge.Client.{Web}

-- The text frame that was written last, with the number of its connection.
abbrev last_text : List (ℕ × Frame) → Option (ℕ × Bytes)
last_text [] = none
last_text ((p, text_frame raw) ∷ sent) = some (p, raw)
last_text ((p, close_frame code reason) ∷ sent) = none
last_text ((p, pong_frame text) ∷ sent) = none

abbrev first_msg : List OfferMsg → Option OfferMsg
first_msg [] = none
first_msg (msg ∷ msgs) = some msg

abbrev response_of : Phase → Option Response
response_of (finished r) = some r
response_of _ = none

-- The coordinator and the node behind a posted body, where nothing comes between, in the order of the
-- parameters: JSON, the node's use of its WebRTC library, the id that `uuid.NewString` returns, and the
-- times at which the node's message and the answer come.
module _ {Sdp : Type 0} (j : Codec) (quote : Bytes → Bytes) (decode_sdp : Bytes → Option Sdp)
    (handle_offer : Sdp → Option Sdp) (encode_sdp : Sdp → Option Bytes) (request_id : Bytes)
    (now later : ℕ) where
  -- From the write to a node's connection on: that node reads what was written, its goroutine writes
  -- an answer, the coordinator reads that from the same connection, and the call `ch` takes it.
  unfoldable pub answer_written : ℕ → System → Option (ℕ × Bytes) → Option Response
  answer_written ch t written = do
    frame ← written
    msg ← first_msg (read_loop j (frame.1 ∷ []))
    raw ← handle_coord_offer j decode_sdp handle_offer encode_sdp msg
    h ← (run j quote (reads frame.0 raw now ∷ receives ch later ∷ []) t).handlers ch
    response_of h.phase

  -- The response to a posted body, if the call gets as far as an answer.
  unfoldable pub relay : System → Bytes → Option Response
  relay s body =
      let request : Request = record { method = codes "POST"; body = inl body } in
      let events = requests request request_id ∷ enters s.next ∷ forwards s.next true ∷ [] in
      let t = run j quote events s in answer_written s.next t (last_text t.coord.sent)

-- A client whose posted bodies are answered so.
abbrev pub posting : {Sdp : Type 0} → Web Sdp → (Bytes → Option Response) → Web Sdp
posting w serve = record w { post_offer = serve }

-- `json.Unmarshal` and `json.Marshal` of a session description.
module _ {Sdp : Type 0} (j : Codec) (w : Web Sdp) (decode_sdp : Bytes → Option Sdp)
    (encode_sdp : Sdp → Option Bytes) where
  -- The text is the JSON of a session description.
  abbrev pub Shows : Bytes → Sdp → Type 0
  Shows raw v = decode_sdp raw ≡ some v

  -- What `encoding/json` documents of the messages that carry a session description: JSON inside of
  -- JSON comes back, perhaps written otherwise, but as JSON of the same value.
  pub record IsJson : Type 0 where
    pub no_sdp : decode_sdp [] ≡ none
    pub sdp_trip : (v : Sdp) (raw : Bytes) → encode_sdp v ≡ some raw → Shows raw v
    pub request_trip :
        (service id offer : Bytes) (v : Sdp)
        → IsAscii id
        → Shows offer v
        → (raw : Bytes) × (j.decode_offer_request (w.encode_offer service id offer)
            ≡ inl (record { node_id = id; offer = raw }))
          × Shows raw v
    pub offer_kind :
        (m : OfferMsg) (v : Sdp)
        → Shows m.offer v
        → j.decode_envelope (j.encode_offer m) ≡ some (record { kind = m.kind })
    pub offer_trip :
        (m : OfferMsg) (v : Sdp)
        → IsAscii m.request_id
        → Shows m.offer v
        → (raw : Bytes) × (j.decode_offer (j.encode_offer m) ≡ some (record m { offer = raw }))
          × Shows raw v
    pub answer_kind :
        (m : AnswerMsg) (v : Sdp)
        → Shows m.answer v
        → j.decode_envelope (j.encode_answer m) ≡ some (record { kind = m.kind })
    pub answer_trip :
        (m : AnswerMsg) (v : Sdp)
        → IsAscii m.request_id
        → Shows m.answer v
        → (raw : Bytes) × (j.decode_answer (j.encode_answer m) ≡ some (record m { answer = raw }))
          × Shows raw v
    pub body_trip :
        (raw : Bytes) (v : Sdp) → Shows raw v → w.decode_answer (j.encode_raw raw) ≡ some v
