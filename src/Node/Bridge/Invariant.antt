-- ===== src/Node/Bridge/Invariant.antt =====
-- What holds of a bridge in every state that it reaches.
use rtc_bridge.Prelude.{
  Bool, Bool-cases, Bytes, List, Option-cases, [], ap, append_assoc, arith, false, if_cases,
  if◌then◌else◌, inl, inr, length, length-append, ltb, ltb→lt, refl, some, some_injective, subst,
  sym, true, ◌++◌, ◌<◌, ◌||◌, ◌∷◌, ◌≡◌, ◌≤◌, ◌⊎◌,
}
use rtc_bridge.Node.Bridge.{
  Pump, running, leaving, gone, Bridge, bridge, Event, message, closes, drains, reads,
  writer_cleans, reader_cleans, on_message, on_close, drain, read, leave_writer, leave_reader, step,
  run, buf_size,
}

abbrev pub is_gone : Pump → Bool
is_gone gone = true
is_gone _ = false

abbrev pub is_running : Pump → Bool
is_running running = true
is_running _ = false

-- While the writer runs, what it has not written yet is in `buf`; while the reader runs, what has
-- arrived has been sent. Both ends are closed once `cleanup` has run, which a goroutine that is gone
-- has made sure of, and not before.
pub record Inv (s : Bridge) : Type 0 where
  pub waiting : is_running s.writer ≡ true → s.received ≡ s.written ++ s.buf
  pub passed : is_running s.reader ≡ true → s.arrived ≡ s.sent
  pub conn_once : s.conn_closes ≡ (if s.once_done then 1 else 0)
  pub dc_once : s.dc_closes ≡ (if s.once_done then 1 else 0)
  pub writer_done : is_gone s.writer ≡ true → s.once_done ≡ true
  pub reader_done : is_gone s.reader ≡ true → s.once_done ≡ true
  pub capacity : length s.buf ≤ buf_size

pub bridge-Inv :
    (buf : List Bytes) (buf_closed : Bool) → length buf ≤ buf_size → Inv (bridge buf buf_closed)
bridge-Inv buf buf_closed h = record {
  waiting = λ e. refl;
  passed = λ e. refl;
  conn_once = refl;
  dc_once = refl;
  writer_done = λ e. cc;
  reader_done = λ e. cc;
  capacity = h;
}

-- A message waits, or goes to the end of `buf`.
pub on_message_cases :
    (d : Bytes) (s t : Bridge)
    → on_message d s ≡ some t
    → (t ≡ s)
      ⊎ ((length s.buf < buf_size)
          × (t ≡ record s { buf = s.buf ++ d ∷ []; received = s.received ++ d ∷ [] }))
unfolding on_message
on_message_cases d s t =
    let pushed : Bridge = record s { buf = s.buf ++ d ∷ []; received = s.received ++ d ∷ [] } in
    if_cases (λ o. o ≡ some t → (t ≡ s) ⊎ ((length s.buf < buf_size) × (t ≡ pushed))) s.buf_closed
      (λ closed e. cc)
      λ opened.
        if_cases (λ o. o ≡ some t → (t ≡ s) ⊎ ((length s.buf < buf_size) × (t ≡ pushed)))
          (ltb (length s.buf) buf_size) (λ room e. inr (ltb→lt _ _ room, sym (some_injective e)))
          (λ full e. inl (sym (some_injective e)))

on_message-Inv : (d : Bytes) (s t : Bridge) → Inv s → on_message d s ≡ some t → Inv t
unfolding on_message
on_message-Inv d s t v e = elim (on_message_cases d s t e) [
  | inl same ↦ subst Inv (sym same) v
  | inr (room, same) ↦ subst Inv (sym same) (record {
    waiting = λ r. rw (v.waiting r) (append_assoc s.written s.buf (d ∷ []));
    passed = v.passed;
    conn_once = v.conn_once;
    dc_once = v.dc_once;
    writer_done = v.writer_done;
    reader_done = v.reader_done;
    capacity = omega (arith, room, length-append s.buf (d ∷ []));
  })
]

on_close-Inv : (s t : Bridge) → Inv s → on_close s ≡ some t → Inv t
unfolding on_close
on_close-Inv s t v e = elim (Bool-cases s.buf_closed) [
  | inl closed ↦ let is = rw (on_close, closed) at e in cc
  | inr opened ↦ subst Inv (some_injective (rw (on_close, opened) at e)) (record {
    waiting = v.waiting;
    passed = v.passed;
    conn_once = v.conn_once;
    dc_once = v.dc_once;
    writer_done = v.writer_done;
    reader_done = v.reader_done;
    capacity = v.capacity;
  })
]

drain-Inv :
    (wrote : Bool) (p : Pump) (buf : List Bytes) (s : Bridge)
    → s.writer ≡ p
    → s.buf ≡ buf
    → Inv s
    → Inv (drain wrote p buf s)
unfolding drain
drain-Inv wrote running [] s ep eb v = ground arith
drain-Inv wrote running (d ∷ rest) s ep eb v =
    let before = v.waiting (ap is_running ep) in
    let split = append_assoc s.written (d ∷ []) rest in ground (arith, before, split, ap length eb)
drain-Inv wrote leaving buf s ep eb v = v
drain-Inv wrote gone buf s ep eb v = v

read-Inv :
    (chunk : Bytes) (sendable err : Bool) (p : Pump) (s : Bridge)
    → s.reader ≡ p
    → Inv s
    → Inv (read chunk sendable err p s)
unfolding read
read-Inv [] sendable err running s ep v = ground arith
read-Inv (b ∷ bs) sendable err running s ep v = ground arith
read-Inv chunk sendable err leaving s ep v = v
read-Inv chunk sendable err gone s ep v = v

leave_writer-Inv : (p : Pump) (s : Bridge) → Inv s → Inv (leave_writer p s)
unfolding leave_writer
leave_writer-Inv leaving s v = ground arith
leave_writer-Inv running s v = v
leave_writer-Inv gone s v = v

leave_reader-Inv : (p : Pump) (s : Bridge) → Inv s → Inv (leave_reader p s)
unfolding leave_reader
leave_reader-Inv leaving s v = ground arith
leave_reader-Inv running s v = v
leave_reader-Inv gone s v = v

pub step-Inv : (e : Event) (s t : Bridge) → Inv s → step e s ≡ some t → Inv t
unfolding step
step-Inv (message d) s t v e = on_message-Inv d s t v e
step-Inv closes s t v e = on_close-Inv s t v e
step-Inv (drains wrote) s t v e =
    subst Inv (some_injective e) (drain-Inv wrote s.writer s.buf s refl refl v)
step-Inv (reads chunk sendable err) s t v e =
    subst Inv (some_injective e) (read-Inv chunk sendable err s.reader s refl v)
step-Inv writer_cleans s t v e = subst Inv (some_injective e) (leave_writer-Inv s.writer s v)
step-Inv reader_cleans s t v e = subst Inv (some_injective e) (leave_reader-Inv s.reader s v)

-- A run is its first step, and the rest.
pub run_cons :
    (e : Event) (es : List Event) (s u : Bridge)
    → run (e ∷ es) s ≡ some u
    → (t : Bridge) × (step e s ≡ some t) × (run es t ≡ some u)
unfolding run
run_cons e es s u h = elim (Option-cases (step e s)) [
  | inl stuck ↦ let is = rw (run, stuck) at h in cc
  | inr (t, first) ↦ (t, first, rw (run, first) at h)
]

pub run-Inv : (es : List Event) (s t : Bridge) → Inv s → run es s ≡ some t → Inv t
unfolding run
run-Inv [] s t v e = subst Inv (some_injective e) v
run-Inv (e ∷ es) s t v h =
    let (m, first, rest) = run_cons e es s t h in run-Inv es m t (step-Inv e s m v first) rest

-- Whatever the order of events: the TCP connection and the data channel are closed at most once, and
-- each is closed as soon as one of the two goroutines of the bridge is gone; `buf` never holds more
-- than 256 messages.
pub run-closes_once :
    (es : List Event) (buf : List Bytes) (buf_closed : Bool) (t : Bridge)
    → length buf ≤ buf_size
    → run es (bridge buf buf_closed) ≡ some t
    → (t.conn_closes ≤ 1)
      × (t.dc_closes ≤ 1)
      × (length t.buf ≤ buf_size)
      × ((is_gone t.writer || is_gone t.reader) ≡ true → (t.conn_closes ≡ 1) × (t.dc_closes ≡ 1))
run-closes_once es buf buf_closed t h e =
    let v = run-Inv es (bridge buf buf_closed) t (bridge-Inv buf buf_closed h) e in
    (ground (arith, v.conn_once), ground (arith, v.dc_once), v.capacity, λ g. ground arith)
