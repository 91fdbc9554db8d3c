-- ===== src/Browser/Dial/Tests.antt =====
-- Dialing, at concrete values.
use rtc_bridge.Prelude.{
  Bytes, List, Option, [], ap, codes, inl, inr, lookup, none, refl, some, suc, sym, take, true, ℕ,
  ◌++◌, ◌∷◌, ◌≡◌, ◌⊎◌,
}
use rtc_bridge.Wire.{OfferRequest}
use rtc_bridge.Coordinator.System.{Event, start, accepts, run}
use rtc_bridge.Coordinator.State.{new_coordinator}
use rtc_bridge.Coordinator.Relay.{Response, Offer, begin_offer}
use rtc_bridge.Samples.{reg}
use rtc_bridge.Samples.Prefixed.{put, get}
use rtc_bridge.EndToEnd.{relay}
use rtc_bridge.EndToEnd.Samples.{sdp, nested}
use rtc_bridge.Browser.{Channel}
use rtc_bridge.Browser.Samples.{quote, own_id}
use rtc_bridge.Browser.Dial.{Fetch, Peer, rejects, opens, leaves, base_of, dial}
use rtc_bridge.Browser.Dial.Ends.{IsServed, NamesNode, dial-unregistered}

-- A network on which nothing answers.
abbrev fetch : Fetch Bytes
fetch = record {
  get = λ url. none;
  post = λ url body. none;
  decode_nodes = λ body. none;
  decode_services = λ body. none;
  encode_offer = λ id offer. put id ++ offer;
  decode_answer = sdp;
}

-- A peer connection that has its candidates after 200 milliseconds.
abbrev peer : Peer Bytes
peer = record {
  offer = some (codes "offer");
  sets_local = λ offer. true;
  gathered = some 200;
  local_description = λ t. codes "offer";
  sets_remote = λ answer. true;
  fate = opens;
}

base_of_example : base_of (codes "http://c/") ≡ codes "http://c"
unfolding base_of
base_of_example = refl

abbrev before : List Event
before = accepts (record reg { node_id = own_id }) 5 ∷ []

-- The coordinator after this, with a node that answers every offer with the same text.
abbrev server : Bytes → Option Response
server =
    relay nested quote sdp (λ offer. some (codes "answer")) sdp (codes "r1") 7 8
      (run nested quote before start)

abbrev early : Response ⊎ Offer → Option Response
early (inl r) = some r
early (inr o) = none

-- A coordinator without nodes.
abbrev served : Fetch Bytes
served = record fetch {
  post = λ url body. early (
      begin_offer nested quote (record { method = codes "POST"; body = inl body }) (codes "r1")
        new_coordinator);
}

served-IsServed :
    IsServed nested quote new_coordinator served (codes "http://c") (codes "n1") (codes "r1")
served-IsServed offer r begins = ap early begins

named : OfferRequest ⊎ Bytes → Bytes
named (inl req) = req.node_id
named (inr failure) = []

named_first :
    (n : ℕ) (offer : Bytes) (req : OfferRequest)
    → nested.decode_offer_request (take (suc (suc (suc n))) (put (codes "n1") ++ offer)) ≡ inl req
    → req.node_id ≡ codes "n1"
unfolding put get named
named_first n offer req e = ap named (sym e)

names : NamesNode nested served (codes "n1")
names offer req e = named_first 1048573 offer req e

dial-unregistered_example :
    dial served (codes "http://c") (codes "n1") peer peer
    ≡ (rejects, leaves rejects ∷ leaves rejects ∷ [])
unfolding new_coordinator lookup
dial-unregistered_example =
    dial-unregistered nested quote new_coordinator served (codes "http://c") (codes "n1")
      (codes "r1") peer peer 200 served-IsServed names refl refl
