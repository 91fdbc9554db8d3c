-- ===== src/Coordinator/System/Known.antt =====
-- The nodes of the offers that `handleOffer` takes.
use rtc_bridge.Prelude.{
  Bytes, Option, Option-cases, Sum-cases, [], ap, bytes_eq, codes, if_cases, inl, inr, length,
  lookup, none, not, some, some_injective, take, ◌==◌, ◌||◌, ◌∙◌, ◌≡◌, ◌⊎◌,
}
use rtc_bridge.Wire.{Codec, OfferRequest}
use rtc_bridge.Coordinator.State.{Coordinator}
use rtc_bridge.Coordinator.Relay.{Request, Response, Offer, find_node, begin_offer, body_limit}

abbrev offer_of : Response ⊎ Offer → Option Offer
offer_of (inl response) = none
offer_of (inr o) = some o

-- An offer is for a registered node.
abbrev pub IsFound : Coordinator → Offer → Response ⊎ Offer → Type 0
IsFound c o r = r ≡ inr o → (id : Bytes) × (lookup id c.nodes ≡ some o.node)

find_node-IsFound :
    (j : Codec) (quote : Bytes → Bytes) (req : OfferRequest) (request_id : Bytes) (c : Coordinator)
    (o : Offer)
    → IsFound c o (find_node j quote req request_id c)
unfolding find_node
find_node-IsFound j quote req request_id c o =
    if_cases (IsFound c o) (bytes_eq req.node_id [] || length req.offer == 0) (λ _ e. absurd (cc))
      (λ _. elim (Option-cases (lookup req.node_id c.nodes)) [
        | inl e ↦ rw e (λ h. absurd (cc))
        | inr (p, e) ↦ rw e (λ h.
            (req.node_id, e ∙ ap (λ (o : Offer). some o.node) (some_injective (ap offer_of h))))
      ])

pub begin_offer-IsFound :
    (j : Codec) (quote : Bytes → Bytes) (r : Request) (request_id : Bytes) (c : Coordinator)
    (o : Offer)
    → IsFound c o (begin_offer j quote r request_id c)
unfolding begin_offer
begin_offer-IsFound j quote r request_id c o =
    if_cases (IsFound c o) (not (bytes_eq r.method (codes "POST"))) (λ _ e. absurd (cc))
      (λ _. elim (Sum-cases r.body) [
        | inr (failure, e) ↦ rw e (λ h. absurd (cc))
        | inl (whole, e) ↦ rw e (elim (Sum-cases (j.decode_offer_request (take body_limit whole))) [
          | inr (failure, f) ↦ rw f (λ h. absurd (cc))
          | inl (req, f) ↦ rw f (find_node-IsFound j quote req request_id c o)
        ])
      ])
