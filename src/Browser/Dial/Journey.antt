-- ===== src/Browser/Dial/Journey.antt =====
-- A browser that dials a registered node, on the whole way over the coordinator to the node and back.
use rtc_bridge.Prelude.{
  Bool-cases, Bytes, Option, Option-cases, [], arith, bytes_eq, bytes_eq_refl, codes, if◌then◌else◌,
  inl, inr, none, refl, some, true, ℕ, ◌++◌, ◌==◌, ◌∷◌, ◌≡◌,
}
use rtc_bridge.Coordinator.Relay.{Response}
use rtc_bridge.Client.{goes_on, Web, post}
use rtc_bridge.EndToEnd.{posting}
use rtc_bridge.Browser.Dial.{
  resolves, Fetch, is_ok, read_response, send_offer, opens, Peer, wait_end, leaves, await_open,
  exchange_offer, dial_once, dial,
}

-- The browser's requests and JSON, as those of a client that names no service.
abbrev pub as_web : {Sdp : Type 0} → Bytes → Fetch Sdp → Web Sdp
as_web base f = record {
  get_services = none;
  post_offer = λ body. f.post (base ++ codes "/offer") body;
  decode_services = f.decode_services;
  encode_offer = λ service id offer. f.encode_offer id offer;
  decode_answer = f.decode_answer;
}

-- A browser whose posts reach this server at the coordinator's address, and nothing elsewhere.
abbrev pub reaching : {Sdp : Type 0} → Fetch Sdp → Bytes → (Bytes → Option Response) → Fetch Sdp
reaching f base serve = record f {
  post = λ url body. if bytes_eq url (base ++ codes "/offer") then serve body else none;
}

-- A peer connection for which everything works, with an offer and an answer, and how long it
-- gathers candidates.
pub record IsWorking {Sdp : Type 0} (p : Peer Sdp) (limit : Option ℕ) (answer : Sdp) : Type 0 where
  pub offer : Sdp
  pub t : ℕ
  pub makes_offer : p.offer ≡ some offer
  pub takes_offer : p.sets_local offer ≡ true
  pub ends : wait_end limit p.gathered ≡ some t
  pub takes_answer : p.sets_remote answer ≡ true
  pub gets_open : p.fate ≡ opens

module _ {Sdp : Type 0} (f : Fetch Sdp) (base id : Bytes) where
  -- Where the command-line client goes on with an answer, so does the browser.
  pub send_offer-post :
      (offer : Bytes) (answer : Sdp)
      → post (as_web base f) [] id offer ≡ goes_on answer
      → send_offer f base id offer ≡ some answer
  unfolding post send_offer read_response
  send_offer-post offer answer e =
      elim (Option-cases (f.post (base ++ codes "/offer") (f.encode_offer id offer))) [
        | inl n ↦ let is = rw (n, post) at e in cc
        | inr (r, n) ↦ elim (Bool-cases (r.status == 200)) [
          | inr g ↦ let is = rw (n, g, post) at e in cc
          | inl g ↦ elim (Option-cases (f.decode_answer r.body)) [
            | inl h ↦ let is = rw (n, g, post, h) at e in cc
            | inr (v, h) ↦
                let is = rw (n, g, post, h) at e in
                let ok : is_ok r ≡ true = ground (arith, g) in rw (n, ok, h) cc
          ]
        ]
      ]

  -- The server gets what the client would post to it.
  pub post-reaching :
      (serve : Bytes → Option Response) (offer : Bytes)
      → post (as_web base (reaching f base serve)) [] id offer
        ≡ post (posting (as_web base f) serve) [] id offer
  unfolding post
  post-reaching serve offer = rw (bytes_eq_refl (base ++ codes "/offer")) refl

  dial_once-resolves :
      (p : Peer Sdp) (limit : Option ℕ) (answer : Sdp) (g : Fetch Sdp)
      (k : IsWorking p limit answer)
      → send_offer g base id (p.local_description k.t) ≡ some answer
      → dial_once g base id p limit ≡ leaves (resolves id)
  unfolding dial_once exchange_offer await_open
  dial_once-resolves p limit answer g k comes =
      rw
        (
          dial_once, k.makes_offer, k.takes_offer, k.ends, exchange_offer, comes, k.takes_answer,
          await_open, k.gets_open,
        )
        refl

  pub dial-resolves :
      (p q : Peer Sdp) (answer : Sdp) (g : Fetch Sdp) (k : IsWorking p (some 1000) answer)
      → send_offer g base id (p.local_description k.t) ≡ some answer
      → dial g base id p q ≡ (resolves id, leaves (resolves id) ∷ [])
  unfolding dial
  dial-resolves p q answer g k comes =
      let e = dial_once-resolves p (some 1000) answer g k comes in rw (dial, e, e) refl
