-- ===== src/Node/Bridge.antt =====
-- node/main.go: `bridge`, with the handlers of the data channel that fill and close `buf`. The two
-- goroutines and the handlers run interleaved: an event is the next piece of one of them.
pub mod Pipe
pub mod Invariant
pub mod Refine
pub mod Ends
mod Tests
use rtc_bridge.Prelude.{
  Bool, Bytes, List, Option, [], false, if◌then◌else◌, length, ltb, none, not, some, suc, true, ℕ,
  ◌&&◌, ◌++◌, ◌>>=◌, ◌∷◌,
}

-- Where a goroutine is: in its loop, at the deferred `cleanup`, or past it.
pub data Pump : Type 0 where
  running leaving gone : Pump

-- `conn_closes` and `dc_closes` count the calls of `Close`. What has gone through is kept: the messages
-- put into `buf`, those written to the TCP connection, the chunks read from it, those sent.
pub record Bridge : Type 0 where
  pub buf : List Bytes
  pub buf_closed : Bool
  pub once_done : Bool
  pub conn_closes : ℕ
  pub dc_closes : ℕ
  pub writer : Pump
  pub reader : Pump
  pub received : List Bytes
  pub written : List Bytes
  pub arrived : List Bytes
  pub sent : List Bytes

-- The capacity of `buf`.
abbrev pub buf_size : ℕ
buf_size = 256

-- `bridge` when the command loop has left these messages in `buf`, and the channel is open or closed.
abbrev pub bridge : List Bytes → Bool → Bridge
bridge buf buf_closed = record {
  buf = buf;
  buf_closed = buf_closed;
  once_done = false;
  conn_closes = 0;
  dc_closes = 0;
  writer = running;
  reader = running;
  received = buf;
  written = [];
  arrived = [];
  sent = [];
}

pub data Event : Type 0 where
  -- `OnMessage` and `OnClose`.
  message : Bytes → Event
  closes : Event
  -- A round of the loop over `buf`; the flag tells whether an open connection takes the write. What
  -- a failed write has written of its message is left out.
  drains : Bool → Event
  -- A round of the other loop: the bytes that an open connection reads, whether they can be sent, and
  -- whether `Read` returns an error besides.
  reads : Bytes → Bool → Bool → Event
  -- The deferred calls of `cleanup`.
  writer_cleans : Event
  reader_cleans : Event

-- `buf <- data`, which waits while `buf` is full; `none` is the panic of a send on a closed channel.
unfoldable pub on_message : Bytes → Bridge → Option Bridge
on_message d s =
    if s.buf_closed
    then none
    else if ltb (length s.buf) buf_size
    then some (record s { buf = s.buf ++ d ∷ []; received = s.received ++ d ∷ [] })
    else some s

-- `close(buf)`; `none` is the panic of a second close.
unfoldable pub on_close : Bridge → Option Bridge
on_close s = if s.buf_closed then none else some (record s { buf_closed = true })

-- A round of the loop from the channel to the connection; a closed connection takes no write.
unfoldable pub drain : Bool → Pump → List Bytes → Bridge → Bridge
drain wrote running (d ∷ rest) s =
    if wrote && not s.once_done
    then record s { buf = rest; written = s.written ++ d ∷ [] }
    else record s { buf = rest; writer = leaving }
drain wrote running [] s = if s.buf_closed then record s { writer = leaving } else s
drain wrote leaving buf s = s
drain wrote gone buf s = s

-- The end of a round of the other loop: it returns when `Read` has returned an error.
abbrev pub after_read : Bool → Bridge → Bridge
after_read err s = if err then record s { reader = leaving } else s

-- A round of the loop from the connection to the channel; a closed connection reads nothing but an
-- error.
unfoldable pub read : Bytes → Bool → Bool → Pump → Bridge → Bridge
read chunk sendable err running s =
    if s.once_done then record s { reader = leaving } else elim chunk [
      | [] ↦ after_read err s
      | b ∷ bs ↦
          if sendable
          then after_read err
              (record s { arrived = s.arrived ++ (b ∷ bs) ∷ []; sent = s.sent ++ (b ∷ bs) ∷ [] })
          else record s { arrived = s.arrived ++ (b ∷ bs) ∷ []; reader = leaving }
    ]
read chunk sendable err leaving s = s
read chunk sendable err gone s = s

-- `cleanup`. The second call waits for the first, so that its two calls of `Close` count as one piece.
unfoldable pub cleanup : Bridge → Bridge
cleanup s =
    if s.once_done
    then s
    else record s { once_done = true; conn_closes = suc s.conn_closes; dc_closes = suc s.dc_closes }

unfoldable pub leave_writer : Pump → Bridge → Bridge
unfolding cleanup
leave_writer leaving s = record (cleanup s) { writer = gone }
leave_writer running s = s
leave_writer gone s = s

unfoldable pub leave_reader : Pump → Bridge → Bridge
unfolding cleanup
leave_reader leaving s = record (cleanup s) { reader = gone }
leave_reader running s = s
leave_reader gone s = s

-- An event that does not fit the state changes nothing.
unfoldable pub step : Event → Bridge → Option Bridge
unfolding on_message on_close drain read leave_writer leave_reader
step (message d) s = on_message d s
step closes s = on_close s
step (drains wrote) s = some (drain wrote s.writer s.buf s)
step (reads chunk sendable err) s = some (read chunk sendable err s.reader s)
step writer_cleans s = some (leave_writer s.writer s)
step reader_cleans s = some (leave_reader s.reader s)

unfoldable pub run : List Event → Bridge → Option Bridge
unfolding step
run [] s = some s
run (e ∷ es) s = step e s >>= run es
