-- ===== src/Coordinator/State.antt =====
-- coordinator/main.go: the types `pendingOffer`, `node` and `coordinator`. Pointers and channels are
-- numbers; what they point at is in the functions `heap`, `closed` and `buffers` of the state.
use rtc_bridge.Prelude.{Bool, Bytes, List, Map, Option, [], false, none, some, update, ℕ, ◌*◌, ◌∷◌}
use rtc_bridge.Protocol.Messages.{AnswerMsg}

-- Times and durations are nanoseconds.
abbrev pub second : ℕ
second = 1000000000

-- `nodeDropAfter`.
abbrev pub node_drop_after : ℕ
node_drop_after = 180 * second

-- `node`. Each has a connection of its own, so a connection goes by the number of its node; the
-- field `deadline` is that connection's read deadline. `pending` takes a request id to the channel
-- of its waiter.
pub record Node : Type 0 where
  pub id : Bytes
  pub services : List Bytes
  pub last_seen : ℕ
  pub deadline : ℕ
  pub pending : Map ℕ

-- What is written to a connection; a close frame has a code and a reason.
pub data Frame : Type 0 where
  text_frame : Bytes → Frame
  close_frame : ℕ → Bytes → Frame
  pong_frame : Bytes → Frame

-- `coordinator`, with the objects that it shares with the handlers: the nodes, whether each
-- connection is closed, the buffered value of each channel of capacity one, the frames written
-- (newest first), and the times at which `sdp.record` was called (newest first).
pub record Coordinator : Type 0 where
  pub nodes : Map ℕ
  pub heap : ℕ → Option Node
  pub closed : ℕ → Bool
  pub buffers : ℕ → Option AnswerMsg
  pub sent : List (ℕ × Frame)
  pub exchanges : List ℕ

-- `newCoordinator`, without the goroutine that it starts.
unfoldable pub new_coordinator : Coordinator
new_coordinator = record {
  nodes = [];
  heap = λ p. none;
  closed = λ p. false;
  buffers = λ ch. none;
  sent = [];
  exchanges = [];
}

-- `websocket.CloseNormalClosure`.
abbrev pub close_normal_closure : ℕ
close_normal_closure = 1000

-- A write through the pointer `p`.
abbrev pub set_node : ℕ → Node → Coordinator → Coordinator
set_node p n c = record c { heap = update c.heap p (some n) }

abbrev pub write_frame : ℕ → Frame → Coordinator → Coordinator
write_frame p f c = record c { sent = (p, f) ∷ c.sent }
