-- ===== src/Node/Session/News.antt =====
-- Which events put a message into `buf`.
use rtc_bridge.Prelude.{
  Bool, Bytes, List, [], append-nil, arith, length, length-append, refl, some, ◌++◌, ◌∷◌, ◌≡◌, ◌≤◌,
}
use rtc_bridge.Node.Bridge.{
  Pump, running, leaving, gone, Bridge, Event, message, closes, drains, reads, writer_cleans,
  reader_cleans, on_message, on_close, drain, read, leave_writer, leave_reader, cleanup, step,
  buf_size,
}
use rtc_bridge.Node.Session.{news, on_queue}

-- What an event puts into `buf` goes to its end.
pub on_queue-news :
    (e : Event) (q r : Bridge)
    → length q.buf ≤ buf_size
    → on_queue e q ≡ some r
    → (r.buf ≡ q.buf ++ news e q) × (length r.buf ≤ buf_size)
unfolding on_queue on_message on_close
on_queue-news (message d) q r room h =
    ground (arith, append-nil q.buf, length-append q.buf (d ∷ []))
on_queue-news closes q r room h = ground (arith, append-nil q.buf)
on_queue-news (drains wrote) q r room h = ground (arith, append-nil q.buf)
on_queue-news (reads chunk sendable err) q r room h = ground (arith, append-nil q.buf)
on_queue-news writer_cleans q r room h = ground (arith, append-nil q.buf)
on_queue-news reader_cleans q r room h = ground (arith, append-nil q.buf)

-- The goroutines of a bridge put nothing into `buf`.
drain-received :
    (wrote : Bool) (p : Pump) (buf : List Bytes) (q : Bridge)
    → (drain wrote p buf q).received ≡ q.received
unfolding drain
drain-received wrote running [] q = ground arith
drain-received wrote running (d ∷ rest) q = ground arith
drain-received wrote leaving buf q = refl
drain-received wrote gone buf q = refl

read-received :
    (chunk : Bytes) (sendable err : Bool) (p : Pump) (q : Bridge)
    → (read chunk sendable err p q).received ≡ q.received
unfolding read
read-received [] sendable err running q = ground arith
read-received (b ∷ bs) sendable err running q = ground arith
read-received chunk sendable err leaving q = refl
read-received chunk sendable err gone q = refl

leave_writer-received : (p : Pump) (q : Bridge) → (leave_writer p q).received ≡ q.received
unfolding leave_writer cleanup
leave_writer-received leaving q = ground arith
leave_writer-received running q = refl
leave_writer-received gone q = refl

leave_reader-received : (p : Pump) (q : Bridge) → (leave_reader p q).received ≡ q.received
unfolding leave_reader cleanup
leave_reader-received leaving q = ground arith
leave_reader-received running q = refl
leave_reader-received gone q = refl

pub step-news : (e : Event) (q r : Bridge) → step e q ≡ some r → r.received ≡ q.received ++ news e q
unfolding step on_message on_close
step-news (message d) q r h = ground (arith, append-nil q.received)
step-news closes q r h = ground (arith, append-nil q.received)
step-news (drains wrote) q r h =
    ground (arith, append-nil q.received, drain-received wrote q.writer q.buf q)
step-news (reads chunk sendable err) q r h =
    ground (arith, append-nil q.received, read-received chunk sendable err q.reader q)
step-news writer_cleans q r h =
    ground (arith, append-nil q.received, leave_writer-received q.writer q)
step-news reader_cleans q r h =
    ground (arith, append-nil q.received, leave_reader-received q.reader q)
