-- ===== src/Lib.antt =====
-- rtc-bridge: access to TCP services from the browser over WebRTC.
--
-- A node (node/) registers its services with a coordinator (coordinator/) over a WebSocket, after
-- a handshake in which it proves that it has its key (protocol/protocol.go). A client lists the
-- nodes and services over HTTP and posts an SDP offer to /offer; the coordinator relays it to the
-- node and the node's answer back. Then the client talks to the node over a data channel: a
-- command loop lets it verify the node's key and connect the channel to a service.
--
-- Files and the code that they model:
-- - Prelude.antt and the files below it: names of the libraries, tests, lists, Go strings as
--   lists of bytes, Go maps with string keys as association lists, objects behind pointers as
--   functions, sort.Strings, Go maps up to their order as a quotient (FiniteMaps), and the steps
--   that a relation reaches (Closure).
-- - Protocol.antt and below: protocol/protocol.go. Messages: the message types. Crypto: what the
--   program calls of sha256 and ed25519, as a parameter with the documented laws. NodeId: NodeID
--   with big.Int's base 36. Registration: signPayload, xor32, SignRegistration, VerifyHello and
--   VerifyRegistration, with their theorems in Payload and Proof.
-- - Wire.antt: encoding/json, as a parameter: one function for each type that is marshalled.
-- - Hex.antt: encoding/hex.
-- - Json.antt: the values of encoding/json, and the reading of a configuration file, the same
--   code in the three programs.
-- - Coordinator.antt and below: coordinator/main.go, and coordinator/config.go in Config.
--   Handshake: handleNodeWS up to registerNode. State: the types node, pendingOffer and
--   coordinator. Registry: registerNode, unregisterNode, pruneLoop, the ping handler. Relay:
--   handleOffer in pieces, and the read loop. System: all goroutines together, as a step function
--   over events; Invariant, Delivery, Once and Exchange hold what is proved of runs. Broker: the
--   abstract specification of the coordinator, against which System/Refine, with Steps and Run,
--   sets the runs of System. Listing: handleNodes, handleServices and corsMiddleware; below it,
--   Directory is the registry as a map without an order. Landing: coordinator/landing.go, with
--   the rate of exchanges. Command: the command line. Routes: the routes that cmdRun sets
--   up. Below System: Rules, how a predicate goes through a step; Origin, where responses come
--   from; Registered, the registry in every reachable state; Known, the node that an offer
--   is for.
-- - Node.antt and below: node/identity.go; node/config.go (Config, with the theorems in Loops and
--   Acceptance); node/coord_client.go (Coordination: connectCoordinator and handleCoordOffer,
--   with runCoordinator and nextBackoff in Backoff, and the theorems in Backoff/Bounds, Honest
--   and Panics); the command loop in handleOffer of node/main.go (Channel, with the theorems in
--   Proofs, Runs, Bridging and Honest); bridge of node/main.go (Bridge: Pipe is its abstract
--   specification, Refine, Ends and Invariant hold the theorems), and the handlers, the
--   loop and the bridge of one data channel together (Session, with Ordered, Order and News);
--   handleOffer around them (Offer); main, cmdRun and cmdInit of node/main.go (Command).
-- - Disk.antt: what the programs use of os and flag, and what their commands share.
-- - Echo.antt and below: loadConfig and handle of echo/main.go, and its commands in Command.
-- - Client.antt and below: postViaCoordinator and the message loop of cli-client/main.go, its
--   main in Program, with theorems against the node (Handshake) and the coordinator (Choice).
-- - Script.antt and Browser.antt, with the files below them: of client/src/index.ts the helpers
--   for bytes and the class Channel, which sends commands to a node and verifies its key;
--   Commands is its sendCmd with calls that overlap; NodeIds, Honest, Connect and Genuine hold
--   what is proved of the class and of the node's command loop. Dial: the class Coordinator,
--   createChannel, dialOnce and dial; below it Ends is about a dial that fails, Journey about one
--   that goes through, and Whole about the way from dial over the coordinator and the node to
--   verifyIdentity.
-- - EndToEnd.antt: an offer and its answer from the client over the coordinator to the node and
--   back.
-- - Samples.antt and the files called Tests: concrete values, and the theorems at them.
--
-- Bytes are natural numbers; where a theorem needs them below 256 it says so. Times are
-- nanoseconds as natural numbers. An index out of range is `none`. The loops are structural
-- recursions; only the digits of a number in base 36 take fuel, the number and one, which is more
-- than it has digits. The goroutines of the coordinator interleave at the places where a lock is
-- released or a channel is waited on: a run is any sequence of such pieces, and the writes to
-- connections are a log. So do the two goroutines of a bridge and the handlers of its channel; a
-- round of a loop is one piece. A handler that waits for room in `buf`, whose capacity is the 256
-- of the code, has changed nothing and may come again as a later piece. A file system is any type
-- with the operations of Disk.antt. A JavaScript string is a list of code units, which for ASCII
-- are the bytes that Go sends; crypto.subtle, fetch and RTCPeerConnection are parameters, and a
-- promise that is rejected is `none` where the promise always ends. What the network, the clock,
-- the random generator and uuid.NewString return is in the events. A float64 is a value of any
-- type with the operations (Float.antt); the bounds of the delays assume arithmetic
-- that keeps the order of finite numbers, the others nothing. Nobody waits for a lock, and a write
-- to a connection returns, with or without an error: how long a piece takes is not in the model.
-- EndToEnd and Browser/Dial/Whole compose the pieces to one server, a function of a posted body.
--
-- Not modelled: the text of the landing page, what goes to standard error, and the cancellation
-- of a node by a signal; the WebRTC and WebSocket libraries, http.ServeMux, go-json5 and the
-- parser of encoding/json; of client/src/index.ts the two methods close and the time that ping
-- measures; and the HTML with its JavaScript.
pub mod Prelude
pub mod Protocol
pub mod Samples
pub mod Wire
pub mod Coordinator
pub mod Hex
pub mod Script
pub mod Browser
pub mod Float
pub mod Json
pub mod Disk
pub mod Echo
pub mod Client
pub mod Node
pub mod EndToEnd
