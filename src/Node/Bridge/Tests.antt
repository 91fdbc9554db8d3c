-- ===== src/Node/Bridge/Tests.antt =====
-- A bridge at concrete events.
use rtc_bridge.Prelude.{
  List, [], arith, codes, false, length, none, refl, some, true, ◌∷◌, ◌≡◌, ◌≤◌,
}
use rtc_bridge.Node.Bridge.{
  Bridge, bridge, Event, message, closes, drains, reads, reader_cleans, leaving, gone, run,
}
use rtc_bridge.Node.Bridge.Pipe.{empty, Reach, IsPrefix}
use rtc_bridge.Node.Bridge.Invariant.{run-closes_once}
use rtc_bridge.Node.Bridge.Refine.{to_conn, to_channel, run-Reach}
use rtc_bridge.Node.Bridge.Ends.{run_ends, last_rounds}

-- A message that has waited is written, the server answers and ends, and the other goroutine finds the
-- connection closed.
abbrev events : List Event
events =
    drains true
    ∷ message (codes "b")
    ∷ reads (codes "A") true false
    ∷ reads (codes "B") true true
    ∷ reader_cleans
    ∷ drains true
    ∷ closes
    ∷ []

abbrev after_events : Bridge
after_events = record {
  buf = [];
  buf_closed = true;
  once_done = true;
  conn_closes = 1;
  dc_closes = 1;
  writer = leaving;
  reader = gone;
  received = codes "a" ∷ codes "b" ∷ [];
  written = codes "a" ∷ [];
  arrived = codes "A" ∷ codes "B" ∷ [];
  sent = codes "A" ∷ codes "B" ∷ [];
}

runs : run events (bridge (codes "a" ∷ []) false) ≡ some after_events
unfolding run
runs = refl

run-Reach_example :
    Reach (empty (codes "a" ∷ [])) (to_conn after_events)
    × Reach (empty []) (to_channel after_events)
    × IsPrefix (to_conn after_events)
    × IsPrefix (to_channel after_events)
run-Reach_example = run-Reach events (codes "a" ∷ []) false after_events (omega arith) runs

run-closes_once_example :
    (after_events.conn_closes ≤ 1)
    × (after_events.dc_closes ≤ 1)
    × (length after_events.buf ≤ 256)
    × (true ≡ true → (after_events.conn_closes ≡ 1) × (after_events.dc_closes ≡ 1))
run-closes_once_example =
    run-closes_once events (codes "a" ∷ []) false after_events (omega arith) runs

run_ends_example :
    (t : Bridge) × (run (last_rounds true (codes "C") true false) after_events ≡ some t)
    × (t.writer ≡ gone)
    × (t.reader ≡ gone)
    × (t.conn_closes ≡ 1)
    × (t.dc_closes ≡ 1)
run_ends_example =
    run_ends events (codes "a" ∷ []) false after_events true true false (codes "C") (omega arith)
      runs refl refl

-- A message after the close panics.
late_message : run (closes ∷ message [] ∷ []) (bridge [] false) ≡ none
unfolding run
late_message = refl
