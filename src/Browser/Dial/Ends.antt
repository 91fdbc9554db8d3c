-- ===== src/Browser/Dial/Ends.antt =====
-- How `dial` ends.
use rtc_bridge.Prelude.{
  Bool-cases, Bytes, Option, Option-cases, Sum-cases, [], bytes_eq, bytes_eq_refl, codes, false,
  if_cases, inl, inr, length, lookup, min, none, refl, some, take, ℕ, ◌++◌, ◌==◌, ◌||◌, ◌∷◌, ◌≡◌,
}
use rtc_bridge.Wire.{Codec, OfferRequest}
use rtc_bridge.Coordinator.State.{Coordinator}
use rtc_bridge.Coordinator.Relay.{Request, Response, body_limit, find_node, begin_offer, http_error}
use rtc_bridge.Browser.Dial.{
  is_ok, read_response, rejects, Fetch, send_offer, Peer, wait_end, leaves, exchange_offer,
  dial_once, dial,
}

module _ {Sdp : Type 0} (f : Fetch Sdp) (base node_id : Bytes) where
  -- The coordinator answers no offer for the node.
  abbrev pub Unanswered : Type 0
  Unanswered = (offer : Bytes) → send_offer f base node_id offer ≡ none

  dial_once-unanswered :
      (p : Peer Sdp) (limit : Option ℕ) (t : ℕ)
      → Unanswered
      → wait_end limit p.gathered ≡ some t
      → dial_once f base node_id p limit ≡ leaves rejects
  unfolding dial_once exchange_offer
  dial_once-unanswered p limit t none_comes ends = elim (Option-cases p.offer) [
    | inl e ↦ rw (dial_once, e) refl
    | inr (offer, e) ↦ elim (Bool-cases (p.sets_local offer)) [
      | inr g ↦ rw (dial_once, e, g) refl
      | inl g ↦ rw (dial_once, e, g, ends, exchange_offer, none_comes (p.local_description t)) refl
    ]
  ]

  limit-ends :
      (limit : ℕ) (gathered : Option ℕ) → (t : ℕ) × (wait_end (some limit) gathered ≡ some t)
  limit-ends limit none = (limit, refl)
  limit-ends limit (some t) = (min limit t, refl)

dial-unanswered :
    {Sdp : Type 0} (f : Fetch Sdp) (base node_id : Bytes) (p q : Peer Sdp) (t : ℕ)
    → Unanswered f base node_id
    → q.gathered ≡ some t
    → dial f base node_id p q ≡ (rejects, leaves rejects ∷ leaves rejects ∷ [])
unfolding dial
dial-unanswered f base node_id p q t none_comes complete =
    let (u, ends) = limit-ends f base node_id 1000 p.gathered in
    rw
      (
        dial,
        dial_once-unanswered f base node_id p (some 1000) u none_comes ends,
        dial_once-unanswered f base node_id p (some 1000) u none_comes ends,
        dial_once-unanswered f base node_id q none t none_comes complete,
      )
      refl

-- The JSON that the browser makes for a node names it; cut at the limit it may be no JSON any more.
abbrev pub NamesNode : {Sdp : Type 0} → Codec → Fetch Sdp → Bytes → Type 0
NamesNode j f id =
    (offer : Bytes) (req : OfferRequest)
    → j.decode_offer_request (take body_limit (f.encode_offer id offer)) ≡ inl req
    → req.node_id ≡ id

module _ (j : Codec) (quote : Bytes → Bytes) (c : Coordinator) {Sdp : Type 0} (f : Fetch Sdp)
    (base id request_id : Bytes) where
  -- What the browser posts, as the coordinator's request.
  abbrev pub offer_request : Bytes → Request
  offer_request offer = record { method = codes "POST"; body = inl (f.encode_offer id offer) }

  -- The browser gets the responses that `handleOffer` makes at once in this state.
  abbrev pub IsServed : Type 0
  IsServed =
      (offer : Bytes) (r : Response)
      → begin_offer j quote (offer_request offer) request_id c ≡ inl r
      → f.post (base ++ codes "/offer") (f.encode_offer id offer) ≡ some r

  find_node-unknown :
      (req : OfferRequest)
      → lookup req.node_id c.nodes ≡ none
      → (r : Response) × (find_node j quote req request_id c ≡ inl r) × (is_ok r ≡ false)
  unfolding find_node
  find_node-unknown req unknown =
      if_cases (λ x. (r : Response) × (x ≡ inl r) × (is_ok r ≡ false))
        (bytes_eq req.node_id [] || length req.offer == 0)
        (λ _. (http_error (codes "nodeId and offer are required") 400, refl, refl))
        (λ _. (
          http_error (codes "node " ++ quote req.node_id ++ codes " not found") 404,
          rw unknown refl,
          refl,
        ))

  begin_offer-unknown :
      (offer : Bytes)
      → NamesNode j f id
      → lookup id c.nodes ≡ none
      → (r : Response) × (begin_offer j quote (offer_request offer) request_id c ≡ inl r)
        × (is_ok r ≡ false)
  unfolding begin_offer
  begin_offer-unknown offer names unknown =
      let whole = f.encode_offer id offer in
      elim (Sum-cases (j.decode_offer_request (take body_limit whole))) [
        | inr (failure, e) ↦ (
          http_error (codes "bad JSON: " ++ failure) 400,
          rw (begin_offer, bytes_eq_refl (codes "POST"), e) refl,
          refl,
        )
        | inl (req, e) ↦
            let (r, finds, bad) = find_node-unknown req (rw (names offer req e) unknown) in
            (r, rw (begin_offer, bytes_eq_refl (codes "POST"), e) finds, bad)
      ]

  unregistered-Unanswered :
      IsServed → NamesNode j f id → lookup id c.nodes ≡ none → Unanswered f base id
  unfolding send_offer read_response
  unregistered-Unanswered served names unknown offer =
      let (r, begins, bad) = begin_offer-unknown offer names unknown in
      rw (served offer r begins, bad) refl

-- A browser that dials an id under which the coordinator knows no node, whose requests name that id,
-- that gets the coordinator's response to each offer, and whose second peer connection has its
-- candidates at some time: `dial` rejects, after two attempts, and leaves both peer connections open.
pub dial-unregistered :
    (j : Codec) (quote : Bytes → Bytes) (c : Coordinator) {Sdp : Type 0} (f : Fetch Sdp)
    (base id request_id : Bytes) (p q : Peer Sdp) (t : ℕ)
    → IsServed j quote c f base id request_id
    → NamesNode j f id
    → lookup id c.nodes ≡ none
    → q.gathered ≡ some t
    → dial f base id p q ≡ (rejects, leaves rejects ∷ leaves rejects ∷ [])
dial-unregistered j quote c f base id request_id p q t served names unknown complete =
    dial-unanswered f base id p q t
      (unregistered-Unanswered j quote c f base id request_id served names unknown) complete
