-- ===== src/Node/Offer/Tests.antt =====
-- An offer that leads to an error, and one that is answered.
use rtc_bridge.Prelude.{
  Bool, false, none, refl, some, some_injective, subst, suc, true, update, update_self, ℕ, ◌==◌,
  ◌↔◌, ◌≡◌,
}
use rtc_bridge.Node.Offer.{
  Engine, IsEngine, IsOpen, IsAnswerable, set_answer, answer_offer, handle_offer,
  handle_offer-IsOpen,
}

-- The state is the number of connections made, and which of them are open; a connection is its place.
abbrev State : Type 0
State = ℕ × (ℕ → Bool)

-- Only the offer 0 is understood.
abbrev counting : Engine State ℕ ℕ
counting = record {
  new_peer = λ s. ((suc s.0, update s.1 s.0 true), some s.0);
  on_data_channel = λ pc s. s;
  set_remote = λ pc v s. (s, v == 0);
  create_answer = λ pc s. (s, some 1);
  set_local = λ pc v s. (s, true);
  gathers = λ pc s. s;
  local_description = λ pc s. 2;
  close = λ pc s. (s.0, update s.1 pc false);
  is_open = λ pc s. s.1 pc;
}

counting-IsEngine : IsEngine counting
counting-IsEngine = record {
  new_open = λ s pc e.
      subst (λ p. update s.1 s.0 true p ≡ true) (some_injective e) (update_self s.1 s.0 true);
  channel_open = λ pc s opened. opened;
  remote_open = λ pc v s opened. opened;
  answer_open = λ pc s opened. opened;
  local_open = λ pc v s opened. opened;
  gathered_open = λ pc s opened. opened;
  closed = λ pc s. update_self s.1 pc false;
}

abbrev idle : State
idle = (0, λ pc. false)

-- The first offer is refused, the second answered; both connections are open.
refused : (handle_offer counting 7 idle).1 ≡ none
unfolding handle_offer answer_offer
refused = refl

answered : (handle_offer counting 0 (handle_offer counting 7 idle).0).1 ≡ some 2
unfolding handle_offer answer_offer set_answer
answered = refl

handle_offer-IsOpen_example :
    IsOpen counting 0 (handle_offer counting 7 idle).0
    × (((answer : ℕ) × ((handle_offer counting 7 idle).1 ≡ some answer))
        ↔ IsAnswerable counting 0 7 (1, update idle.1 0 true))
handle_offer-IsOpen_example = handle_offer-IsOpen counting counting-IsEngine 7 idle 0 refl
