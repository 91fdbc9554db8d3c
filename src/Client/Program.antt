-- ===== src/Client/Program.antt =====
-- cli-client/main.go: `main` from its flags to its exit code.
use rtc_bridge.Prelude.{
  Bool, Bool-cases, Bytes, List, Option, Option-cases, [], arith, bytes_eq, bytes_eq_iff, codes,
  false, if◌then◌else◌, inl, inr, none, not, refl, some, suc, true, ℕ, ◌++◌, ◌==◌, ◌||◌, ◌↔◌, ◌∷◌,
  ◌≡◌, ◌⊎◌,
}
use rtc_bridge.Coordinator.Relay.{Response}
use rtc_bridge.Client.{
  Outcome, goes_on, exits, Web, post_via_coordinator, Exchange, send_messages, handshake_ok,
  all_pass, send_messages-all_pass,
}

-- The flags, with their defaults filled in.
pub record Args : Type 0 where
  pub signal : Bytes
  pub coordinator : Bytes
  pub node : Bytes
  pub service : Bytes
  pub messages : Bytes

-- `fs.Parse`: a request for help, an error, or the flags.
pub data Parsed : Type 0 where
  help : Parsed
  bad : Parsed
  parsed : Args → Parsed

-- What the WebRTC library and the network do in a run: which calls succeed, the offer, the local
-- description once the candidates are gathered, whether the channel opens within 15 seconds, and what
-- comes back within 10 seconds of the service's name; for each message by its place, whether it can be
-- sent and what comes back within 5 seconds. `post_signal` posts a body to a URL.
pub record Peer (Sdp : Type 0) : Type 0 where
  pub connects : Bool
  pub makes_channel : Bool
  pub offer : Option Sdp
  pub sets_local : Sdp → Bool
  pub local_description : Sdp
  pub encode_sdp : Sdp → Bytes
  pub post_signal : Bytes → Bytes → Option Response
  pub sets_remote : Sdp → Bool
  pub opens : Bool
  pub sends_name : Bytes → Bool
  pub ack : Option Bytes
  pub sendable : ℕ → Bool
  pub reply : ℕ → Option Bytes

-- A character in front of the first part.
abbrev pub onto_first : ℕ → List Bytes → List Bytes
onto_first c [] = (c ∷ []) ∷ []
onto_first c (part ∷ parts) = (c ∷ part) ∷ parts

-- `strings.Split(s, ",")`.
unfoldable pub split_commas : Bytes → List Bytes
split_commas [] = [] ∷ []
split_commas (c ∷ s) =
    let parts = split_commas s in if c == b',' then [] ∷ parts else onto_first c parts

module _ {Sdp : Type 0} (p : Peer Sdp) (w : Web Sdp) (trim_space : Bytes → Bytes) where
  -- From the peer connection to the JSON of the local description.
  unfoldable pub make_offer : Outcome Bytes
  make_offer = if not p.connects || not p.makes_channel then exits else elim p.offer [
    | none ↦ exits
    | some offer ↦
        if not (p.sets_local offer) then exits else goes_on (p.encode_sdp p.local_description)
  ]

  -- The post to the signaling URL.
  unfoldable pub post_signaling : Bytes → Bytes → Outcome Sdp
  post_signaling signal offer = elim (p.post_signal (signal ++ codes "/offer") offer) [
    | none ↦ exits
    | some resp ↦
        if not (resp.status == 200)
        then exits
        else elim (w.decode_answer resp.body) [ none ↦ exits | some answer ↦ goes_on answer ]
  ]

  unfoldable pub get_answer : Args → Bytes → Outcome Sdp
  unfolding post_signaling
  get_answer a offer =
      if not (bytes_eq a.coordinator [])
      then post_via_coordinator w a.service a.node offer
      else post_signaling a.signal offer

  -- What becomes of the messages from the `k`-th on.
  abbrev pub exchanges : ℕ → List Bytes → List Exchange
  exchanges k [] = []
  exchanges k (msg ∷ msgs) =
      record { msg = trim_space msg; sendable = p.sendable k; reply = p.reply k }
      ∷ exchanges (suc k) msgs

  -- The messages that are sent, and the exit code.
  unfoldable pub talk : Args → List Bytes × ℕ
  talk a =
      let (sent, ok) = send_messages (exchanges 0 (split_commas a.messages)) true in
      (sent, if ok then 0 else 1)

  -- From the answer to the end of the handshake.
  unfoldable pub with_answer : Args → Outcome Sdp → List Bytes × ℕ
  unfolding talk
  with_answer a exits = ([], 1)
  with_answer a (goes_on answer) =
      if not (p.sets_remote answer) || (not p.opens || not (p.sends_name a.service))
      then ([], 1)
      else if not (handshake_ok p.ack)
      then (a.service ∷ [], 1)
      else (a.service ∷ (talk a).0, (talk a).1)

  unfoldable pub with_offer : Args → Outcome Bytes → List Bytes × ℕ
  unfolding with_answer get_answer
  with_offer a exits = ([], 1)
  with_offer a (goes_on offer) = with_answer a (get_answer a offer)

  -- `main`.
  unfoldable pub main : Parsed → List Bytes × ℕ
  unfolding make_offer with_offer
  main help = ([], 0)
  main bad = ([], 1)
  main (parsed a) = if bytes_eq a.service [] then ([], 1) else with_offer a make_offer

  -- What makes a run end with PASS.
  pub record Passes (a : Args) : Type 0 where
    pub named : bytes_eq a.service [] ≡ false
    pub offer : Sdp
    pub answer : Sdp
    pub connected : p.connects ≡ true
    pub channel : p.makes_channel ≡ true
    pub offered : p.offer ≡ some offer
    pub local : p.sets_local offer ≡ true
    pub answered : get_answer a (p.encode_sdp p.local_description) ≡ goes_on answer
    pub remote : p.sets_remote answer ≡ true
    pub opened : p.opens ≡ true
    pub requested : p.sends_name a.service ≡ true
    pub acknowledged : p.ack ≡ some (codes "ok")
    pub replied : all_pass (exchanges 0 (split_commas a.messages)) ≡ true

  handshake_ok_iff : (ack : Option Bytes) → handshake_ok ack ≡ true ↔ ack ≡ some (codes "ok")
  unfolding handshake_ok
  handshake_ok_iff none = (λ h. cc, λ h. cc)
  handshake_ok_iff (some ack) = ground (arith, bytes_eq_iff ack (codes "ok"))

  talk_iff : (a : Args) → (talk a).1 ≡ 0 ↔ all_pass (exchanges 0 (split_commas a.messages)) ≡ true
  unfolding talk
  talk_iff a = ground (arith, send_messages-all_pass (exchanges 0 (split_commas a.messages)))

  with_answer_iff :
      (a : Args) (answer : Sdp)
      → (with_answer a (goes_on answer)).1 ≡ 0
        ↔ (p.sets_remote answer ≡ true)
          × (p.opens ≡ true)
          × (p.sends_name a.service ≡ true)
          × (p.ack ≡ some (codes "ok"))
          × (all_pass (exchanges 0 (split_commas a.messages)) ≡ true)
  unfolding with_answer
  with_answer_iff a answer = ground (arith, talk_iff a, handshake_ok_iff p.ack)

  -- `make_offer` has one result.
  make_offer_cases :
      (make_offer ≡ exits)
      ⊎ ((offer : Sdp) × (p.connects ≡ true)
          × (p.makes_channel ≡ true)
          × (p.offer ≡ some offer)
          × (p.sets_local offer ≡ true)
          × (make_offer ≡ goes_on (p.encode_sdp p.local_description)))
  unfolding make_offer
  make_offer_cases = elim (Option-cases p.offer) [
    | inl e ↦ ground (arith, e)
    | inr (offer, e) ↦ ground (arith, e)
  ]

  Passes-main : (a : Args) → Passes a → (main (parsed a)).1 ≡ 0
  unfolding main make_offer with_offer
  Passes-main a v =
      rw
        (
          main, v.named, make_offer, v.connected, v.channel, v.offered, v.local, with_offer,
          v.answered,
        )
        ((with_answer_iff a v.answer).1
          (v.remote, v.opened, v.requested, v.acknowledged, v.replied))

  with_answer-Passes :
      (a : Args) (r : Outcome Sdp)
      → bytes_eq a.service [] ≡ false
      → (offer : Sdp) → (p.connects ≡ true)
      → (p.makes_channel ≡ true)
      → (p.offer ≡ some offer)
      → (p.sets_local offer ≡ true)
      → get_answer a (p.encode_sdp p.local_description) ≡ r
      → (with_answer a r).1 ≡ 0
      → Passes a
  unfolding with_answer
  with_answer-Passes a exits named offer c m o l g h = absurd (omega (arith, h))
  with_answer-Passes a (goes_on answer) named offer c m o l g h =
      let (remote, opened, requested, acknowledged, replied) = (with_answer_iff a answer).0 h in
      record {
        named = named;
        offer = offer;
        answer = answer;
        connected = c;
        channel = m;
        offered = o;
        local = l;
        answered = g;
        remote = remote;
        opened = opened;
        requested = requested;
        acknowledged = acknowledged;
        replied = replied;
      }

  -- The client exits with 0 on its flags exactly when a service is named, each call of the WebRTC
  -- library succeeds, the coordinator or the signaling server answers the offer, the channel opens in
  -- time, the reply to the service's name is "ok", and every message that is not empty is sent and
  -- answered in time.
  pub client_main_iff : (a : Args) → (main (parsed a)).1 ≡ 0 ↔ Passes a
  unfolding main with_offer
  client_main_iff a = (
    λ h. elim (Bool-cases (bytes_eq a.service [])) [
      | inl empty ↦ let no = rw (main, empty) at h in absurd (omega (arith, no))
      | inr named ↦ elim make_offer_cases [
        | inl e ↦ let no = rw (main, named, e, with_offer) at h in absurd (omega (arith, no))
        | inr (offer, c, m, o, l, e) ↦
            let is = rw (main, named, e, with_offer) at h in
            with_answer-Passes a _ named offer c m o l refl is
      ]
    ],
    Passes-main a,
  )
