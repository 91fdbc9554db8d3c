-- ===== src/Node/Bridge/Ends.antt =====
-- How a bridge ends.
use rtc_bridge.Prelude.{
  Bool, Bool-cases, Bytes, List, [], ap, arith, false, inl, inr, length, ltb, refl, some, true,
  ◌++◌, ◌||◌, ◌∙◌, ◌∷◌, ◌≡◌, ◌≤◌,
}
use rtc_bridge.Node.Bridge.{
  Pump, running, leaving, gone, Bridge, bridge, Event, message, closes, drains, reads,
  writer_cleans, reader_cleans, on_message, on_close, drain, read, leave_writer, leave_reader, step,
  run, buf_size,
}
use rtc_bridge.Node.Bridge.Invariant.{is_gone, run-Inv, bridge-Inv}

-- The library calls `OnClose` once, and `OnMessage` not after it; the flag tells whether it has been
-- called.
abbrev pub IsOrderly : Bool → List Event → Type 0
IsOrderly is_closed [] = Unit
IsOrderly is_closed (message d ∷ es) = (is_closed ≡ false) × IsOrderly is_closed es
IsOrderly is_closed (closes ∷ es) = (is_closed ≡ false) × IsOrderly true es
IsOrderly is_closed (drains wrote ∷ es) = IsOrderly is_closed es
IsOrderly is_closed (reads chunk sendable err ∷ es) = IsOrderly is_closed es
IsOrderly is_closed (writer_cleans ∷ es) = IsOrderly is_closed es
IsOrderly is_closed (reader_cleans ∷ es) = IsOrderly is_closed es

-- What is left alone by everything but the handlers of the channel.
abbrev SameEnd : Bridge → Bridge → Type 0
SameEnd s t = t.buf_closed ≡ s.buf_closed

drain-SameEnd :
    (wrote : Bool) (p : Pump) (buf : List Bytes) (s : Bridge) → SameEnd s (drain wrote p buf s)
unfolding drain
drain-SameEnd wrote running [] s = ground arith
drain-SameEnd wrote running (d ∷ rest) s = ground arith
drain-SameEnd wrote leaving buf s = refl
drain-SameEnd wrote gone buf s = refl

read-SameEnd :
    (chunk : Bytes) (sendable err : Bool) (p : Pump) (s : Bridge)
    → SameEnd s (read chunk sendable err p s)
unfolding read
read-SameEnd [] sendable err running s = ground arith
read-SameEnd (b ∷ bs) sendable err running s = ground arith
read-SameEnd chunk sendable err leaving s = refl
read-SameEnd chunk sendable err gone s = refl

leave_writer-SameEnd : (p : Pump) (s : Bridge) → SameEnd s (leave_writer p s)
unfolding leave_writer
leave_writer-SameEnd leaving s = ground arith
leave_writer-SameEnd running s = refl
leave_writer-SameEnd gone s = refl

leave_reader-SameEnd : (p : Pump) (s : Bridge) → SameEnd s (leave_reader p s)
unfolding leave_reader
leave_reader-SameEnd leaving s = ground arith
leave_reader-SameEnd running s = refl
leave_reader-SameEnd gone s = refl

on_message-some :
    (d : Bytes) (s : Bridge)
    → s.buf_closed ≡ false
    → (t : Bridge) × (on_message d s ≡ some t) × SameEnd s t
unfolding on_message
on_message-some d s opened = elim (Bool-cases (ltb (length s.buf) buf_size)) [
  | inl room ↦
      (record s { buf = s.buf ++ d ∷ []; received = s.received ++ d ∷ [] }, ground arith, refl)
  | inr full ↦ (s, ground arith, refl)
]

-- If the library calls the handlers in order, the bridge never panics: nothing is sent on a closed
-- channel, and no channel is closed twice.
pub run_returns :
    (es : List Event) (s : Bridge) → IsOrderly s.buf_closed es → (t : Bridge) × (run es s ≡ some t)
unfolding run step
run_returns [] s o = (s, refl)
run_returns (message d ∷ es) s o =
    let (t, e, same) = on_message-some d s o.0 in
    let (u, rest) = run_returns es t (rw same o.1) in (u, rw e rest)
run_returns (closes ∷ es) s o =
    let t : Bridge = record s { buf_closed = true } in
    let (u, rest) = run_returns es t o.1 in (u, rw (on_close, o.0) rest)
run_returns (drains wrote ∷ es) s o =
    let t = drain wrote s.writer s.buf s in
    run_returns es t (rw (drain-SameEnd wrote s.writer s.buf s) o)
run_returns (reads chunk sendable err ∷ es) s o =
    let t = read chunk sendable err s.reader s in
    run_returns es t (rw (read-SameEnd chunk sendable err s.reader s) o)
run_returns (writer_cleans ∷ es) s o =
    run_returns es (leave_writer s.writer s) (rw (leave_writer-SameEnd s.writer s) o)
run_returns (reader_cleans ∷ es) s o =
    run_returns es (leave_reader s.reader s) (rw (leave_reader-SameEnd s.reader s) o)

-- After `Close` on both ends, the next rounds of a goroutine end it.
drain-leaves :
    (wrote : Bool) (p : Pump) (buf : List Bytes) (s : Bridge)
    → s.writer ≡ p
    → s.once_done ≡ true
    → s.buf_closed ≡ true
    → let t = drain wrote p buf s in (leave_writer t.writer t).writer ≡ gone
unfolding drain leave_writer
drain-leaves wrote running [] s e once closed = ground arith
drain-leaves wrote running (d ∷ rest) s e once closed = ground arith
drain-leaves wrote leaving buf s e once closed = ground arith
drain-leaves wrote gone buf s e once closed = ground arith

read-leaves :
    (chunk : Bytes) (sendable err : Bool) (p : Pump) (s : Bridge)
    → s.reader ≡ p
    → s.once_done ≡ true
    → let t = read chunk sendable err p s in (leave_reader t.reader t).reader ≡ gone
unfolding read leave_reader
read-leaves chunk sendable err running s e once = ground arith
read-leaves chunk sendable err leaving s e once = ground arith
read-leaves chunk sendable err gone s e once = ground arith

-- What a goroutine does leaves the other where it is, and an ended bridge ended.
drain_frame :
    (wrote : Bool) (p : Pump) (buf : List Bytes) (s : Bridge)
    → ((drain wrote p buf s).reader ≡ s.reader) × ((drain wrote p buf s).once_done ≡ s.once_done)
unfolding drain
drain_frame wrote running [] s = ground arith
drain_frame wrote running (d ∷ rest) s = ground arith
drain_frame wrote leaving buf s = (refl, refl)
drain_frame wrote gone buf s = (refl, refl)

read_frame :
    (chunk : Bytes) (sendable err : Bool) (p : Pump) (s : Bridge)
    → ((read chunk sendable err p s).writer ≡ s.writer)
      × ((read chunk sendable err p s).once_done ≡ s.once_done)
unfolding read
read_frame [] sendable err running s = ground arith
read_frame (b ∷ bs) sendable err running s = ground arith
read_frame chunk sendable err leaving s = (refl, refl)
read_frame chunk sendable err gone s = (refl, refl)

leave_writer_frame :
    (p : Pump) (s : Bridge)
    → ((leave_writer p s).reader ≡ s.reader)
      × (s.once_done ≡ true → (leave_writer p s).once_done ≡ true)
unfolding leave_writer
leave_writer_frame leaving s = ground arith
leave_writer_frame running s = (refl, λ e. e)
leave_writer_frame gone s = (refl, λ e. e)

leave_reader_frame :
    (p : Pump) (s : Bridge)
    → ((leave_reader p s).writer ≡ s.writer)
      × (s.once_done ≡ true → (leave_reader p s).once_done ≡ true)
unfolding leave_reader
leave_reader_frame leaving s = ground arith
leave_reader_frame running s = (refl, λ e. e)
leave_reader_frame gone s = (refl, λ e. e)

-- A last round of each goroutine, and its deferred call.
abbrev pub last_rounds : Bool → Bytes → Bool → Bool → List Event
last_rounds wrote chunk sendable err =
    drains wrote ∷ writer_cleans ∷ reads chunk sendable err ∷ reader_cleans ∷ []

closed_ends :
    (s : Bridge) (wrote sendable err : Bool) (chunk : Bytes)
    → s.once_done ≡ true
    → s.buf_closed ≡ true
    → (t : Bridge) × (run (last_rounds wrote chunk sendable err) s ≡ some t)
      × (t.writer ≡ gone)
      × (t.reader ≡ gone)
unfolding run step
closed_ends s wrote sendable err chunk once closed =
    let a = drain wrote s.writer s.buf s in
    let b = leave_writer a.writer a in
    let c = read chunk sendable err b.reader b in
    let d = leave_reader c.reader c in
    let still = leave_writer_frame a.writer a in
    let once_b = still.1 ((drain_frame wrote s.writer s.buf s).1 ∙ once) in
    let left = drain-leaves wrote s.writer s.buf s refl once closed in
    (
      d,
      refl,
      (leave_reader_frame c.reader c).0 ∙ (read_frame chunk sendable err b.reader b).0 ∙ left,
      read-leaves chunk sendable err b.reader b refl once_b,
    )

-- When one of the two goroutines is gone, and the library has called `OnClose`, one more round of each,
-- whatever its write, read or send returns, ends the other as well: both are gone, and the
-- connection and the channel are closed, each once.
pub run_ends :
    (es : List Event) (buf : List Bytes) (buf_closed : Bool) (s : Bridge)
    (wrote sendable err : Bool) (chunk : Bytes)
    → length buf ≤ buf_size
    → run es (bridge buf buf_closed) ≡ some s
    → (is_gone s.writer || is_gone s.reader) ≡ true
    → s.buf_closed ≡ true
    → (t : Bridge) × (run (last_rounds wrote chunk sendable err) s ≡ some t)
      × (t.writer ≡ gone)
      × (t.reader ≡ gone)
      × (t.conn_closes ≡ 1)
      × (t.dc_closes ≡ 1)
run_ends es buf buf_closed s wrote sendable err chunk h e one closed =
    let v = run-Inv es (bridge buf buf_closed) s (bridge-Inv buf buf_closed h) e in
    let once : s.once_done ≡ true = ground (arith, v.writer_done, v.reader_done) in
    let (t, ran, writer, reader) = closed_ends s wrote sendable err chunk once closed in
    let w = run-Inv (last_rounds wrote chunk sendable err) s t v ran in
    let once_t = w.writer_done (ap is_gone writer) in
    (t, ran, writer, reader, rw once_t at w.conn_once, rw once_t at w.dc_once)
