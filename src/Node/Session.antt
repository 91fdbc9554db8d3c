-- ===== src/Node/Session.antt =====
-- node/main.go: a data channel from its first message on: the handlers that fill `buf`, the command
-- loop that empties it, and the bridge that takes over what the loop has left.
pub mod News
pub mod Ordered
pub mod Order
mod Tests
use rtc_bridge.Prelude.{
  Bytes, List, Map, Option, [], false, if◌then◌else◌, length, ltb, none, some, ◌++◌, ◌>>=◌, ◌∷◌,
}
use rtc_bridge.Protocol.Crypto.{Crypto}
use rtc_bridge.Wire.{Codec}
use rtc_bridge.Node.Identity.{Identity}
use rtc_bridge.Node.Channel as Commands
use rtc_bridge.Node.Channel.{
  World, Output, After, goes_on, ends, bridges, no_session, trim_right, on_command,
}
use rtc_bridge.Node.Bridge as Bridging
use rtc_bridge.Node.Bridge.{
  Bridge, bridge, Event, message, closes, on_message, on_close, step, buf_size,
}

-- Who reads from `buf`: the command loop, the bridge to a target, or nobody.
pub data Stage : Type 0 where
  commanded : Commands.Session → Stage
  bridged : Bytes → Stage
  ended : Stage

-- `queue` holds `buf`, before a bridge is started also. Kept besides are the messages that were put
-- into `buf`, those that the command loop took, and what was sent for them.
pub record Channel : Type 0 where
  pub queue : Bridge
  pub stage : Stage
  pub received : List Bytes
  pub taken : List Bytes
  pub out : List Output

-- The channel when its handlers are set.
abbrev pub new_channel : Channel
new_channel = record {
  queue = bridge [] false;
  stage = commanded no_session;
  received = [];
  taken = [];
  out = [];
}

pub data Move : Type 0 where
  -- A round of the command loop, once the channel is open.
  rounds : World → Move
  -- The handlers, and the goroutines of a bridge.
  occurs : Event → Move

-- What an event puts into `buf`.
abbrev pub news : Event → Bridge → List Bytes
news (message d) q = if ltb (length q.buf) buf_size then d ∷ [] else []
news _ q = []

-- Without a bridge there are the two handlers only.
unfoldable pub on_queue : Event → Bridge → Option Bridge
unfolding on_message on_close
on_queue (message d) q = on_message d q
on_queue closes q = on_close q
on_queue _ q = some q

unfoldable pub occur : Event → Stage → Bridge → Option Bridge
unfolding on_queue step
occur e (bridged target) q = step e q
occur e (commanded s) q = on_queue e q
occur e ended q = on_queue e q

-- The loop has taken a message and handled it.
unfoldable pub take_command :
    Bytes → List Bytes → Option (List Output × After) → Channel → Option Channel
take_command raw rest none c = none
take_command raw rest (some (out, goes_on s)) c = some (record c {
  queue = record c.queue { buf = rest };
  stage = commanded s;
  taken = c.taken ++ raw ∷ [];
  out = c.out ++ out;
})
take_command raw rest (some (out, ends)) c = some (record c {
  queue = record c.queue { buf = rest };
  stage = ended;
  taken = c.taken ++ raw ∷ [];
  out = c.out ++ out;
})
take_command raw rest (some (out, bridges target)) c = some (record c {
  queue = bridge rest c.queue.buf_closed;
  stage = bridged target;
  taken = c.taken ++ raw ∷ [];
  out = c.out ++ out;
})

module _ (c : Crypto) (j : Codec) (quote : Bytes → Bytes) (id : Identity)
    (services : Map Bytes) where
  -- `raw, ok := <-buf` and what follows: the loop waits while `buf` is empty and open.
  unfoldable pub round : World → Stage → List Bytes → Channel → Option Channel
  unfolding take_command
  round w (commanded s) [] ch =
      some (if ch.queue.buf_closed then record ch { stage = ended } else ch)
  round w (commanded s) (raw ∷ rest) ch =
      take_command raw rest (on_command c j quote id services w s (trim_right raw)) ch
  round w (bridged target) buf ch = some ch
  round w ended buf ch = some ch

  unfoldable pub move : Move → Channel → Option Channel
  unfolding round occur
  move (rounds w) ch = round w ch.stage ch.queue.buf ch
  move (occurs e) ch = do
    q ← occur e ch.stage ch.queue
    some (record ch { queue = q; received = ch.received ++ news e ch.queue })

  unfoldable pub moves : List Move → Channel → Option Channel
  unfolding move
  moves [] ch = some ch
  moves (m ∷ ms) ch = move m ch >>= moves ms
