-- ===== src/Browser/Commands.antt =====
-- client/src/index.ts: `sendCmd` of the class Channel, when calls of it overlap. A call waits for a
-- message with a listener of its own, or for its timer; the channel is open, so `send` does not throw.
use rtc_bridge.Prelude.{
  ==_iff, Bool, Bool-cases, Bytes, List, Option, [], ap, arith, false, if_cases, if◌then◌else◌, inl,
  inr, ltb, none, refl, some, subst, suc, sym, true, zero, ℕ, ◌++◌, ◌+◌, ◌<◌, ◌==◌, ◌||◌, ◌∙◌, ◌∷◌,
  ◌≡◌, ◌≤◌,
}

-- How the promise of a call is settled.
pub data Settled : Type 0 where
  resolved : Bytes → Settled
  timed_out : Settled

-- The calls go by numbers, `next` is the next one. `waiting` has the calls whose listeners are
-- registered, `settled` the others, newest first, and `sent` what was sent to the node, newest first.
pub record Listeners : Type 0 where
  pub waiting : List ℕ
  pub settled : List (ℕ × Settled)
  pub sent : List Bytes
  pub next : ℕ

abbrev pub no_listeners : Listeners
no_listeners = record { waiting = []; settled = []; sent = []; next = 0 }

-- A call of `sendCmd`, a message of the data channel, and a timer that expires.
pub data Happening : Type 0 where
  sends : Bytes → Happening
  receives : Bytes → Happening
  expires : ℕ → Happening

unfoldable pub settle_all : Bytes → List ℕ → List (ℕ × Settled) → List (ℕ × Settled)
settle_all text [] settled = settled
settle_all text (k ∷ waiting) settled = settle_all text waiting ((k, resolved text) ∷ settled)

unfoldable pub is_waiting : ℕ → List ℕ → Bool
is_waiting k [] = false
is_waiting k (x ∷ waiting) = (x == k) || is_waiting k waiting

-- `removeEventListener` of the call's handler.
unfoldable pub remove_listener : ℕ → List ℕ → List ℕ
remove_listener k [] = []
remove_listener k (x ∷ waiting) = if x == k then waiting else x ∷ remove_listener k waiting

-- Every listener gets the message, removes itself and resolves its call. The timer of a call that is
-- settled has been cleared.
unfoldable pub happen : Happening → Listeners → Listeners
unfolding settle_all is_waiting remove_listener
happen (sends cmd) l = record l {
  waiting = l.waiting ++ l.next ∷ [];
  sent = cmd ∷ l.sent;
  next = suc l.next;
}
happen (receives text) l = record l { waiting = []; settled = settle_all text l.waiting l.settled }
happen (expires k) l =
    if is_waiting k l.waiting
    then record l { waiting = remove_listener k l.waiting; settled = (k, timed_out) ∷ l.settled }
    else l

unfoldable pub run : List Happening → Listeners → Listeners
unfolding happen
run [] l = l
run (h ∷ hs) l = run hs (happen h l)

-- How often a call stands among those that wait and those that are settled.
abbrev pub times_waiting : ℕ → List ℕ → ℕ
times_waiting k [] = 0
times_waiting k (x ∷ waiting) = (if x == k then 1 else 0) + times_waiting k waiting

abbrev pub times_settled : ℕ → List (ℕ × Settled) → ℕ
times_settled k [] = 0
times_settled k ((x, how) ∷ settled) = (if x == k then 1 else 0) + times_settled k settled

-- Each call that was made waits or is settled, once, and no other number occurs.
abbrev Accounted : Listeners → Type 0
Accounted l =
    (k : ℕ)
    → times_waiting k l.waiting + times_settled k l.settled ≡ (if ltb k l.next then 1 else 0)

times_waiting-append :
    (k n : ℕ) (waiting : List ℕ)
    → times_waiting k (waiting ++ n ∷ []) ≡ times_waiting k waiting + (if n == k then 1 else 0)
times_waiting-append k n [] = omega arith
times_waiting-append k n (x ∷ waiting) = omega (arith, times_waiting-append k n waiting)

times_settled-settle_all :
    (k : ℕ) (text : Bytes) (waiting : List ℕ) (settled : List (ℕ × Settled))
    → times_settled k (settle_all text waiting settled)
      ≡ times_waiting k waiting + times_settled k settled
unfolding settle_all
times_settled-settle_all k text [] settled = omega arith
times_settled-settle_all k text (x ∷ waiting) settled =
    omega (arith, times_settled-settle_all k text waiting ((x, resolved text) ∷ settled))

times_waiting-remove_listener :
    (k x : ℕ) (waiting : List ℕ)
    → is_waiting x waiting ≡ true
    → times_waiting k waiting
      ≡ (if x == k then 1 else 0) + times_waiting k (remove_listener x waiting)
unfolding is_waiting remove_listener
times_waiting-remove_listener k x [] e = cc
times_waiting-remove_listener k x (y ∷ waiting) e =
    ground (arith, times_waiting-remove_listener k x waiting, e)

happen-Accounted : (h : Happening) (l : Listeners) → Accounted l → Accounted (happen h l)
unfolding happen
happen-Accounted (sends cmd) l v = λ k. ground (arith, times_waiting-append k l.next l.waiting, v k)
happen-Accounted (receives text) l v =
    λ k. ground (arith, times_settled-settle_all k text l.waiting l.settled, v k)
happen-Accounted (expires x) l v =
    if_cases Accounted (is_waiting x l.waiting)
      (λ waits k. ground (arith, times_waiting-remove_listener k x l.waiting waits, v k)) (λ _. v)

run-Accounted : (hs : List Happening) (l : Listeners) → Accounted l → Accounted (run hs l)
unfolding run
run-Accounted [] l v = v
run-Accounted (h ∷ hs) l v = run-Accounted hs (happen h l) (happen-Accounted h l v)

-- Whatever happens, in whatever order: each call that was made is either waiting or settled, and it is
-- settled at most once.
pub run-accounted :
    (hs : List Happening) (k : ℕ)
    → let l = run hs no_listeners in
      times_waiting k l.waiting + times_settled k l.settled ≡ (if ltb k l.next then 1 else 0)
run-accounted hs = run-Accounted hs no_listeners (λ k. ground arith)

-- Calls one after another, each with the message that comes while it waits.
abbrev pub exchanges : List (Bytes × Bytes) → List Happening
exchanges [] = []
exchanges ((cmd, text) ∷ rest) = sends cmd ∷ receives text ∷ exchanges rest

-- The calls from a number on, resolved with these messages.
abbrev pub resolved_from : ℕ → List (Bytes × Bytes) → List (ℕ × Settled) → List (ℕ × Settled)
resolved_from n [] settled = settled
resolved_from n ((cmd, text) ∷ rest) settled =
    resolved_from (suc n) rest ((n, resolved text) ∷ settled)

exchanges-resolved :
    (pairs : List (Bytes × Bytes)) (l : Listeners)
    → l.waiting ≡ []
    → ((run (exchanges pairs) l).waiting ≡ [])
      × ((run (exchanges pairs) l).settled ≡ resolved_from l.next pairs l.settled)
unfolding run happen settle_all
exchanges-resolved [] l e = (e, refl)
exchanges-resolved ((cmd, text) ∷ rest) l e =
    rw (e, settle_all)
      (exchanges-resolved rest
        (record {
          waiting = [];
          settled = (l.next, resolved text) ∷ l.settled;
          sent = cmd ∷ l.sent;
          next = suc l.next;
        })
        refl)

-- After a call that has timed out, where no other call waits.
abbrev given_up : Bytes → Listeners → Listeners
given_up cmd l = record {
  waiting = [];
  settled = (l.next, timed_out) ∷ l.settled;
  sent = cmd ∷ l.sent;
  next = suc l.next;
}

expires-sends :
    (l : Listeners) (cmd : Bytes)
    → l.waiting ≡ []
    → happen (expires l.next) (happen (sends cmd) l) ≡ given_up cmd l
unfolding happen is_waiting remove_listener
expires-sends l cmd e =
    let self : (l.next == l.next) ≡ true = (==_iff l.next l.next).1 refl in
    subst
      (λ w.
        happen (expires l.next) (happen (sends cmd) (record l { waiting = w })) ≡ given_up cmd l)
      (sym e) (rw self refl)

-- How a call was settled last.
unfoldable pub settled_of : ℕ → List (ℕ × Settled) → Option Settled
settled_of k [] = none
settled_of k ((x, how) ∷ settled) =
    let rest = settled_of k settled in if x == k then some how else rest

settled_of-older :
    (k n : ℕ) (pairs : List (Bytes × Bytes)) (settled : List (ℕ × Settled))
    → k < n
    → settled_of k (resolved_from n pairs settled) ≡ settled_of k settled
unfolding settled_of
settled_of-older k n [] settled h = refl
settled_of-older k n ((cmd, text) ∷ pairs) settled h =
    let other : (n == k) ≡ false = ground (arith, h) in
    settled_of-older k (suc n) pairs ((n, resolved text) ∷ settled) (omega (arith, h))
    ∙ rw (settled_of, other) refl

-- The calls go by numbers; `command` tells which command a call sends, and `reply` what the node
-- replies to a command that a call has sent.
module _ (command : ℕ → Bytes) (reply : ℕ → Bytes → Bytes) where
  -- So many calls behind the call `n`, one after another. The node replies to each command in turn,
  -- and one reply is late: while a call waits, the reply to the command of the call before it comes.
  abbrev pub behind : ℕ → ℕ → List (Bytes × Bytes)
  behind n zero = []
  behind n (suc m) = (command (suc n), reply n (command n)) ∷ behind (suc n) m

  settled_of-behind :
      (n m k : ℕ) (settled : List (ℕ × Settled))
      → n ≤ k
      → k < n + m
      → settled_of (suc k) (resolved_from (suc n) (behind n m) settled)
        ≡ some (resolved (reply k (command k)))
  unfolding settled_of
  settled_of-behind n zero k settled above below = absurd (omega (arith, above, below))
  settled_of-behind n (suc m) k settled above below =
      let text = reply n (command n) in
      elim (Bool-cases (n == k)) [
        | inl e ↦
            let is : n ≡ k = (==_iff n k).0 e in
            let self : (suc n == suc n) ≡ true = (==_iff (suc n) (suc n)).1 refl in
            subst
              (λ i.
                settled_of (suc i) (resolved_from (suc n) (behind n (suc m)) settled)
                ≡ some (resolved (reply i (command i))))
              is
              (settled_of-older (suc n) (suc (suc n)) (behind (suc n) m)
                  ((suc n, resolved text) ∷ settled) (omega arith)
                ∙ rw (settled_of, self) refl)
        | inr e ↦
            settled_of-behind (suc n) m k ((suc n, resolved text) ∷ settled)
              (ground (arith, above, e)) (omega (arith, below))
      ]

-- Where no call waits, a call is made and times out, and so many calls are made after it, one after
-- another; the node replies to each command in turn, but the reply to the first comes only when the
-- second call waits, and so on: then each of the later calls is resolved with the reply to the command
-- of the call before it.
pub exchanges-late :
    (command : ℕ → Bytes) (reply : ℕ → Bytes → Bytes) (l : Listeners) (m k : ℕ)
    → l.waiting ≡ []
    → l.next ≤ k
    → k < l.next + m
    → let late = sends (command l.next) ∷ expires l.next ∷ [] in
      settled_of (suc k) (run (late ++ exchanges (behind command reply l.next m)) l).settled
      ≡ some (resolved (reply k (command k)))
unfolding run
exchanges-late command reply l m k e above below =
    let pairs = behind command reply l.next m in
    let after = exchanges-resolved pairs (given_up (command l.next) l) refl in
    let first = expires-sends l (command l.next) e in
    let settled = ap (λ t. (run (exchanges pairs) t).settled) first ∙ after.1 in
    ap (settled_of (suc k)) settled
    ∙ settled_of-behind command reply l.next m k ((l.next, timed_out) ∷ l.settled) above below
