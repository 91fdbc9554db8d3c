-- ===== src/Node/Offer.antt =====
-- node/main.go: `handleOffer` around the handlers of its data channel. The WebRTC library is a
-- parameter: its state, its peer connections and its session descriptions are of any types.
mod Tests
use rtc_bridge.Prelude.{
  Bool, Bool-cases, Option, Option-cases, ap, false, if_cases, if◌then◌else◌, inl, inr, none, not,
  refl, some, some_injective, subst, sym, true, ◌>>=◌, ◌↔◌, ◌∙◌, ◌≡◌,
}

-- The calls in the order of the code; the flags tell whether a call returns no error. `gathers` is
-- the wait for the candidates; `close` is `Close`, which the code does not call.
pub record Engine (S Pc Sdp : Type 0) : Type 0 where
  pub new_peer : S → S × Option Pc
  pub on_data_channel : Pc → S → S
  pub set_remote : Pc → Sdp → S → S × Bool
  pub create_answer : Pc → S → S × Option Sdp
  pub set_local : Pc → Sdp → S → S × Bool
  pub gathers : Pc → S → S
  pub local_description : Pc → S → Sdp
  pub close : Pc → S → S
  pub is_open : Pc → S → Bool

abbrev pub IsOpen : {S Pc Sdp : Type 0} → Engine S Pc Sdp → Pc → S → Type 0
IsOpen e pc s = e.is_open pc s ≡ true

-- What the library documents: `Close` closes a peer connection, and of the calls here nothing else
-- does; it is open when it is new.
pub record IsEngine {S Pc Sdp : Type 0} (e : Engine S Pc Sdp) : Type 0 where
  pub new_open : (s : S) (pc : Pc) → (e.new_peer s).1 ≡ some pc → IsOpen e pc (e.new_peer s).0
  pub channel_open : (pc : Pc) (s : S) → IsOpen e pc s → IsOpen e pc (e.on_data_channel pc s)
  pub remote_open :
      (pc : Pc) (v : Sdp) (s : S) → IsOpen e pc s → IsOpen e pc (e.set_remote pc v s).0
  pub answer_open : (pc : Pc) (s : S) → IsOpen e pc s → IsOpen e pc (e.create_answer pc s).0
  pub local_open : (pc : Pc) (v : Sdp) (s : S) → IsOpen e pc s → IsOpen e pc (e.set_local pc v s).0
  pub closed : (pc : Pc) (s : S) → e.is_open pc (e.close pc s) ≡ false
  pub gathered_open : (pc : Pc) (s : S) → IsOpen e pc s → IsOpen e pc (e.gathers pc s)

module _ {S Pc Sdp : Type 0} (e : Engine S Pc Sdp) where
  -- From `SetLocalDescription` on.
  unfoldable pub set_answer : Pc → Sdp → S → S × Option Sdp
  set_answer pc answer s =
      let (s', ok) = e.set_local pc answer s in
      let gathered = e.gathers pc s' in
      if not ok then (s', none) else (gathered, some (e.local_description pc gathered))

  -- From `CreateAnswer` on.
  abbrev pub with_answer : Pc → S × Option Sdp → S × Option Sdp
  with_answer pc (s, none) = (s, none)
  with_answer pc (s, some answer) = set_answer pc answer s

  -- From `SetRemoteDescription` on.
  unfoldable pub answer_offer : Pc → Sdp → S → S × Option Sdp
  unfolding set_answer
  answer_offer pc offer s =
      let (s', ok) = e.set_remote pc offer s in
      if not ok then (s', none) else with_answer pc (e.create_answer pc s')

  abbrev pub with_peer : Sdp → S × Option Pc → S × Option Sdp
  with_peer offer (s, none) = (s, none)
  with_peer offer (s, some pc) = answer_offer pc offer (e.on_data_channel pc s)

  -- `handleOffer`; `none` is an error.
  unfoldable pub handle_offer : Sdp → S → S × Option Sdp
  unfolding answer_offer
  handle_offer offer s = with_peer offer (e.new_peer s)

  module _ (t : IsEngine e) (pc : Pc) where
    set_answer-IsOpen :
        (answer : Sdp) (s : S) → IsOpen e pc s → IsOpen e pc (set_answer pc answer s).0
    unfolding set_answer
    set_answer-IsOpen answer s opened =
        let kept = t.local_open pc answer s opened in
        if_cases (λ (r : S × Option Sdp). IsOpen e pc r.0) (not (e.set_local pc answer s).1)
          (λ _. kept) (λ _. t.gathered_open pc (e.set_local pc answer s).0 kept)

    with_answer-IsOpen : (r : S × Option Sdp) → IsOpen e pc r.0 → IsOpen e pc (with_answer pc r).0
    with_answer-IsOpen (s, none) opened = opened
    with_answer-IsOpen (s, some answer) opened = set_answer-IsOpen answer s opened

    answer_offer-IsOpen :
        (offer : Sdp) (s : S) → IsOpen e pc s → IsOpen e pc (answer_offer pc offer s).0
    unfolding answer_offer
    answer_offer-IsOpen offer s opened =
        let kept = t.remote_open pc offer s opened in
        if_cases (λ (r : S × Option Sdp). IsOpen e pc r.0) (not (e.set_remote pc offer s).1)
          (λ _. kept)
          (λ _.
            with_answer-IsOpen (e.create_answer pc (e.set_remote pc offer s).0)
              (t.answer_open pc (e.set_remote pc offer s).0 kept))

  with_peer-IsOpen :
      IsEngine e
      → (offer : Sdp) (r : S × Option Pc) (pc : Pc) → r.1 ≡ some pc
      → IsOpen e pc r.0
      → IsOpen e pc (with_peer offer r).0
  with_peer-IsOpen t offer (s, none) pc made opened = opened
  with_peer-IsOpen t offer (s, some new) pc made opened =
      let is : pc ≡ new = some_injective (sym made) in
      subst (λ (q : Pc). IsOpen e pc (answer_offer q offer (e.on_data_channel q s)).0) is
        (answer_offer-IsOpen t pc offer (e.on_data_channel pc s) (t.channel_open pc s opened))

  -- That `handleOffer` gets as far as an answer with this peer connection: `SetRemoteDescription`,
  -- `CreateAnswer` and `SetLocalDescription`, in this order, return no error.
  abbrev pub IsAnswerable : Pc → Sdp → S → Type 0
  IsAnswerable pc offer s =
      let (with_remote, ok) = e.set_remote pc offer s in
      let (with_answer, made) = e.create_answer pc with_remote in
      (ok ≡ true)
      × ((answer : Sdp) × (made ≡ some answer) × ((e.set_local pc answer with_answer).1 ≡ true))

  answer_offer_iff :
      (pc : Pc) (offer : Sdp) (s : S)
      → ((answer : Sdp) × ((answer_offer pc offer s).1 ≡ some answer)) ↔ IsAnswerable pc offer s
  unfolding answer_offer set_answer
  answer_offer_iff pc offer s =
      let r = e.set_remote pc offer s in
      let m = e.create_answer pc r.0 in
      elim (Bool-cases r.1) [
        | inr f ↦ (λ (v, h). let is = rw (f, answer_offer) at h in cc, λ (ok, _). cc)
        | inl ok ↦ elim (Option-cases m.1) [
          | inl f ↦
              (λ (v, h). let is = rw (ok, answer_offer, f) at h in cc, λ (_, (a, made, _)). cc)
          | inr (a, f) ↦ elim (Bool-cases (e.set_local pc a m.0).1) [
            | inr g ↦ (
              λ (v, h). let is = rw (ok, answer_offer, f, g) at h in cc,
              λ (_, (b, made, takes)).
                  let same : a ≡ b = some_injective (sym f ∙ made) in
                  let no = rw (← same) at takes in cc,
            )
            | inl g ↦ (
              λ _. (ok, (a, f, g)),
              λ _. (
                e.local_description pc (e.gathers pc (e.set_local pc a m.0).0),
                rw (answer_offer, ok, f, g) refl,
              ),
            )
          ]
        ]
      ]

  with_peer-made :
      (offer : Sdp) (r : S × Option Pc) (pc : Pc)
      → r.1 ≡ some pc
      → with_peer offer r ≡ answer_offer pc offer (e.on_data_channel pc r.0)
  with_peer-made offer (s, none) pc made = cc
  with_peer-made offer (s, some new) pc made =
      ap (λ q. answer_offer q offer (e.on_data_channel q s)) (some_injective made)

  -- Where `NewPeerConnection` makes a peer connection: it is open when `handleOffer` has returned, and
  -- that is with a session description exactly if `SetRemoteDescription` takes the offer,
  -- `CreateAnswer` makes an answer and `SetLocalDescription` takes that; else it is with an error.
  pub handle_offer-IsOpen :
      IsEngine e
      → (offer : Sdp) (s : S) (pc : Pc) → (e.new_peer s).1 ≡ some pc
      → IsOpen e pc (handle_offer offer s).0
        × (((answer : Sdp) × ((handle_offer offer s).1 ≡ some answer))
            ↔ IsAnswerable pc offer (e.on_data_channel pc (e.new_peer s).0))
  unfolding handle_offer
  handle_offer-IsOpen t offer s pc made = (
    with_peer-IsOpen t offer (e.new_peer s) pc made (t.new_open s pc made),
    rw (with_peer-made offer (e.new_peer s) pc made)
        (answer_offer_iff pc offer (e.on_data_channel pc (e.new_peer s).0)),
  )
