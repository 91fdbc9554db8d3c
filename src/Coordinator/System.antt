-- ===== src/Coordinator/System.antt =====
-- coordinator/main.go: the goroutines of a running coordinator together. A state holds the shared
-- coordinator and what each handler has in its local variables; an event is the next piece of one
-- goroutine that runs without another between, and a run is a sequence of events, so every order
-- that the locks and channels allow is a run.
pub mod Rules
pub mod Invariant
pub mod Delivery
pub mod Once
pub mod Exchange
pub mod Origin
pub mod Registered
pub mod Known
pub mod Refine
mod Tests
use rtc_bridge.Prelude.{
  Bool, Bytes, List, Option, [], false, if◌then◌else◌, inl, inr, none, not, some, suc, true, update,
  ℕ, ◌&&◌, ◌∷◌, ◌⊎◌,
}
use rtc_bridge.Protocol.Messages.{RegisterMsg, AnswerMsg}
use rtc_bridge.Wire.{Codec}
use rtc_bridge.Coordinator.State.{Node, Coordinator, new_coordinator}
use rtc_bridge.Coordinator.Registry.{accept_node, end_node, handle_ping, prune}
use rtc_bridge.Coordinator.Relay.{
  Request, Response, Offer, begin_offer, enter_pending, leave_pending, forward_offer, bad_gateway,
  gateway_timeout, take_answer, Next, keep_reading, leave, stuck, on_message, next_read,
}

-- How far a call of `handleOffer` that has found its node is. `failed` and `timed_out` stand before
-- the `delete` of their branch.
pub data Phase : Type 0 where
  created entered forwarded failed timed_out : Phase
  finished : Response → Phase

-- The local state of a call of `handleOffer`.
pub record Handler : Type 0 where
  pub offer : Offer
  pub phase : Phase

-- The calls of `handleOffer` go by the number of their channel, and `next` is the next such number;
-- so do the nodes with `next_node`. `looping` tells whose read loop is running, and `replies` is
-- what the calls that ended early have answered, newest first.
pub record System : Type 0 where
  pub coord : Coordinator
  pub handlers : ℕ → Option Handler
  pub looping : ℕ → Bool
  pub next : ℕ
  pub next_node : ℕ
  pub replies : List Response

unfoldable pub start : System
unfolding new_coordinator
start = record {
  coord = new_coordinator;
  handlers = λ ch. none;
  looping = λ p. false;
  next = 0;
  next_node = 0;
  replies = [];
}

pub data Event : Type 0 where
  -- An accepted handshake at a time.
  accepts : RegisterMsg → ℕ → Event
  -- The read loop of a node reads a message, a ping, or an error.
  reads : ℕ → Bytes → ℕ → Event
  pings : ℕ → Bytes → ℕ → Event
  hangs_up : ℕ → Event
  -- A tick of `pruneLoop`.
  ticks : ℕ → Event
  -- A request to /offer, with the id that `uuid.NewString` returns.
  requests : Request → Bytes → Event
  -- The pieces of a call of `handleOffer`; `forwards` tells whether the write succeeds.
  enters : ℕ → Event
  forwards : ℕ → Bool → Event
  receives : ℕ → ℕ → Event
  times_out : ℕ → Event
  cleans_up : ℕ → Event

abbrev pub set_phase : ℕ → Handler → Phase → Coordinator → System → System
set_phase ch h phase c s = record s {
  coord = c;
  handlers = update s.handlers ch (some (record h { phase = phase }));
}

-- The round of the read loop ends: the loop goes on, or the deferred calls run.
after_message : ℕ → Node → ℕ → Coordinator × Next → System → System
after_message p n now (c, keep_reading) s = elim (c.heap p) [
  | none ↦ record s { coord = c }
  | some n' ↦ record s { coord = next_read p n' now c }
]
after_message p n now (c, leave) s = record s {
  coord = end_node p n c;
  looping = update s.looping p false;
}
after_message p n now (c, stuck) s = record s { looping = update s.looping p false }

-- A round of the read loop runs if the loop is running and the connection is open.
abbrev can_read : ℕ → System → Bool
can_read p s = s.looping p && not (s.coord.closed p)

started : Response ⊎ Offer → System → System
started (inl response) s = record s { replies = response ∷ s.replies }
started (inr o) s = record s {
  handlers = update s.handlers s.next (some (record { offer = o; phase = created }));
  next = suc s.next;
}

-- The next piece of a call of `handleOffer`, by its phase; an event that does not fit the phase
-- changes nothing.
enter_step : ℕ → Handler → Phase → Node → System → System
enter_step ch h created n s = set_phase ch h entered (enter_pending ch h.offer n s.coord) s
enter_step ch h _ n s = s

forward_step : Codec → ℕ → Handler → Phase → Bool → System → System
forward_step j ch h entered true s = set_phase ch h forwarded (forward_offer j h.offer s.coord) s
forward_step j ch h entered false s = set_phase ch h failed s.coord s
forward_step j ch h _ wrote s = s

receive_step : Codec → ℕ → Handler → Phase → ℕ → Option AnswerMsg → System → System
receive_step j ch h forwarded now (some ans) s =
    let (c, response) = take_answer j ch ans now s.coord in set_phase ch h (finished response) c s
receive_step j ch h _ now _ s = s

time_out_step : ℕ → Handler → Phase → System → System
time_out_step ch h forwarded s = set_phase ch h timed_out s.coord s
time_out_step ch h _ s = s

clean_up_step : ℕ → Handler → Phase → Node → System → System
clean_up_step ch h failed n s =
    set_phase ch h (finished bad_gateway) (leave_pending h.offer n s.coord) s
clean_up_step ch h timed_out n s =
    set_phase ch h (finished gateway_timeout) (leave_pending h.offer n s.coord) s
clean_up_step ch h _ n s = s

abbrev with_node : ℕ → (Node → System → System) → System → System
with_node p f s = elim (s.coord.heap p) [ none ↦ s | some n ↦ f n s ]

abbrev with_handler : ℕ → (Handler → System → System) → System → System
with_handler ch f s = elim (s.handlers ch) [ none ↦ s | some h ↦ f h s ]

module _ (j : Codec) (quote : Bytes → Bytes) where
  unfoldable pub step : Event → System → System
  unfolding after_message started enter_step forward_step receive_step time_out_step clean_up_step
  step (accepts reg now) s = record s {
    coord = accept_node s.next_node reg now s.coord;
    looping = update s.looping s.next_node true;
    next_node = suc s.next_node;
  }
  step (reads p raw now) s =
      if can_read p s
      then with_node p (λ n. after_message p n now (on_message j p n raw s.coord)) s
      else s
  step (pings p app_data now) s =
      if can_read p s
      then with_node p (λ n s. record s { coord = handle_ping p n app_data now s.coord }) s
      else s
  step (hangs_up p) s =
      if s.looping p
      then with_node p
          (λ n s. record s { coord = end_node p n s.coord; looping = update s.looping p false }) s
      else s
  step (ticks now) s = record s { coord = prune now s.coord }
  step (requests r request_id) s = started (begin_offer j quote r request_id s.coord) s
  step (enters ch) s = with_handler ch (λ h. with_node h.offer.node (enter_step ch h h.phase)) s
  step (forwards ch wrote) s = with_handler ch (λ h. forward_step j ch h h.phase wrote) s
  step (receives ch now) s =
      with_handler ch (λ h s. receive_step j ch h h.phase now (s.coord.buffers ch) s) s
  step (times_out ch) s = with_handler ch (λ h. time_out_step ch h h.phase) s
  step (cleans_up ch) s =
      with_handler ch (λ h. with_node h.offer.node (clean_up_step ch h h.phase)) s

  unfoldable pub run : List Event → System → System
  unfolding step
  run [] s = s
  run (e ∷ es) s = run es (step e s)
