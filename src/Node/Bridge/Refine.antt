-- ===== src/Node/Bridge/Refine.antt =====
-- The bridge against two pipes, one in each direction.
use rtc_bridge.Prelude.{
  Bool, Bool-cases, Bytes, List, Star-trans, [], ap, false, if_cases, inl, inr, length, not, refl,
  some, some_injective, subst, sym, true, ◌&&◌, ◌++◌, ◌∙◌, ◌∷◌, ◌≡◌, ◌≤◌,
}
use rtc_bridge.Node.Bridge.{
  Pump, running, leaving, gone, Bridge, bridge, Event, message, closes, drains, reads,
  writer_cleans, reader_cleans, on_message, on_close, drain, read, after_read, cleanup,
  leave_writer, leave_reader, step, run, buf_size,
}
use rtc_bridge.Prelude.{here, later}
use rtc_bridge.Node.Bridge.Pipe.{
  Pipe, empty, Step, accepts, delivers, Reach, IsPrefix, Reach-IsPrefix,
}
use rtc_bridge.Node.Bridge.Invariant.{
  Inv, is_running, bridge-Inv, on_message_cases, step-Inv, run_cons,
}

-- The pipe from the data channel to the TCP connection, and the pipe back.
abbrev pub to_conn : Bridge → Pipe
to_conn s = record { accepted = s.received; delivered = s.written }

abbrev pub to_channel : Bridge → Pipe
to_channel s = record { accepted = s.arrived; delivered = s.sent }

abbrev Follows : Bridge → Bridge → Type 0
Follows s t = Reach (to_conn s) (to_conn t) × Reach (to_channel s) (to_channel t)

Follows-refl : (s : Bridge) → Follows s s
Follows-refl s = (here, here)

on_message-Follows : (d : Bytes) (s t : Bridge) → on_message d s ≡ some t → Follows s t
on_message-Follows d s t e = elim (on_message_cases d s t e) [
  | inl same ↦ subst (Follows s) (sym same) (Follows-refl s)
  | inr (room, same) ↦ subst (Follows s) (sym same) (later here (accepts d refl), here)
]

on_close-Follows : (s t : Bridge) → on_close s ≡ some t → Follows s t
unfolding on_close
on_close-Follows s t e = elim (Bool-cases s.buf_closed) [
  | inl closed ↦ let is = rw (on_close, closed) at e in cc
  | inr opened ↦ subst (Follows s) (some_injective (rw (on_close, opened) at e)) (here, here)
]

drain-Follows :
    (wrote : Bool) (p : Pump) (buf : List Bytes) (s : Bridge)
    → s.writer ≡ p
    → s.buf ≡ buf
    → Inv s
    → Follows s (drain wrote p buf s)
unfolding drain
drain-Follows wrote running [] s ep eb v =
    if_cases (Follows s) s.buf_closed (λ _. (here, here)) (λ _. Follows-refl s)
drain-Follows wrote running (d ∷ rest) s ep eb v =
    let first = v.waiting (ap is_running ep) ∙ ap (λ b. s.written ++ b) eb in
    if_cases (Follows s) (wrote && not s.once_done)
      (λ _. (later here (delivers d rest first refl), here)) (λ _. (here, here))
drain-Follows wrote leaving buf s ep eb v = Follows-refl s
drain-Follows wrote gone buf s ep eb v = Follows-refl s

after_read-Follows : (err : Bool) (s t : Bridge) → Follows s t → Follows s (after_read err t)
after_read-Follows true s t h = h
after_read-Follows false s t h = h

read-Follows :
    (chunk : Bytes) (sendable err : Bool) (p : Pump) (s : Bridge)
    → s.reader ≡ p
    → Inv s
    → Follows s (read chunk sendable err p s)
unfolding read
read-Follows [] sendable err running s ep v =
    if_cases (Follows s) s.once_done (λ _. Follows-refl s)
      (λ _. after_read-Follows err s s (Follows-refl s))
read-Follows (b ∷ bs) sendable err running s ep v =
    let chunk : Bytes = b ∷ bs in
    let arrives : Step (to_channel s)
        (record (to_channel s) { accepted = s.arrived ++ chunk ∷ [] }) =
      accepts chunk refl in
    let passed = ap (λ l. l ++ chunk ∷ []) (v.passed (ap is_running ep)) in
    if_cases (Follows s) s.once_done (λ _. Follows-refl s)
      (λ _.
        if_cases (Follows s) sendable
          (λ _.
            after_read-Follows err s _
              (here, later (later here arrives) (delivers chunk [] passed refl)))
          (λ _. (here, later here arrives)))
read-Follows chunk sendable err leaving s ep v = Follows-refl s
read-Follows chunk sendable err gone s ep v = Follows-refl s

cleanup-Follows : (s : Bridge) → Follows s (cleanup s)
unfolding cleanup
cleanup-Follows s = if_cases (Follows s) s.once_done (λ _. Follows-refl s) (λ _. (here, here))

leave_writer-Follows : (p : Pump) (s : Bridge) → Follows s (leave_writer p s)
unfolding leave_writer
leave_writer-Follows leaving s = cleanup-Follows s
leave_writer-Follows running s = Follows-refl s
leave_writer-Follows gone s = Follows-refl s

leave_reader-Follows : (p : Pump) (s : Bridge) → Follows s (leave_reader p s)
unfolding leave_reader
leave_reader-Follows leaving s = cleanup-Follows s
leave_reader-Follows running s = Follows-refl s
leave_reader-Follows gone s = Follows-refl s

pub step-Follows : (e : Event) (s t : Bridge) → Inv s → step e s ≡ some t → Follows s t
unfolding step
step-Follows (message d) s t v e = on_message-Follows d s t e
step-Follows closes s t v e = on_close-Follows s t e
step-Follows (drains wrote) s t v e =
    subst (Follows s) (some_injective e) (drain-Follows wrote s.writer s.buf s refl refl v)
step-Follows (reads chunk sendable err) s t v e =
    subst (Follows s) (some_injective e) (read-Follows chunk sendable err s.reader s refl v)
step-Follows writer_cleans s t v e =
    subst (Follows s) (some_injective e) (leave_writer-Follows s.writer s)
step-Follows reader_cleans s t v e =
    subst (Follows s) (some_injective e) (leave_reader-Follows s.reader s)

run-Follows : (es : List Event) (s t : Bridge) → Inv s → run es s ≡ some t → Follows s t
unfolding run
run-Follows [] s t v e = subst (Follows s) (some_injective e) (Follows-refl s)
run-Follows (e ∷ es) s t v h =
    let (m, first, rest) = run_cons e es s t h in
    let a = step-Follows e s m v first in
    let b = run-Follows es m t (step-Inv e s m v first) rest in
    (Star-trans a.0 b.0, Star-trans a.1 b.1)

-- Whatever the order of events, and whichever write, read or send fails: what the bridge does from its
-- start is what two pipes can do, one from the data channel to the TCP connection, which begins with
-- the messages that the command loop has left, and one back. So nothing is reordered, repeated or
-- left out in either direction; what a failure leaves undelivered is the end of the stream.
pub run-Reach :
    (es : List Event) (buf : List Bytes) (buf_closed : Bool) (t : Bridge)
    → length buf ≤ buf_size
    → run es (bridge buf buf_closed) ≡ some t
    → Reach (empty buf) (to_conn t)
      × Reach (empty []) (to_channel t)
      × IsPrefix (to_conn t)
      × IsPrefix (to_channel t)
run-Reach es buf buf_closed t h e =
    let follows = run-Follows es (bridge buf buf_closed) t (bridge-Inv buf buf_closed h) e in
    (
      follows.0,
      follows.1,
      Reach-IsPrefix follows.0 (buf, refl),
      Reach-IsPrefix follows.1 ([], refl),
    )
