-- ===== src/Client/Tests.antt =====
-- The client at concrete values.
use rtc_bridge.Prelude.{
  Bytes, Map, [], bytes_eq, codes, has_prefix, if◌then◌else◌, inl, none, refl, some, true, ◌==◌,
  ◌∷◌, ◌≡◌, ◌≢◌,
}
use rtc_bridge.Coordinator.State.{Coordinator, Node, new_coordinator}
use rtc_bridge.Coordinator.Relay.{Request}
use rtc_bridge.Coordinator.Listing.{entries, services_of, handle_services}
use rtc_bridge.Node.Identity.{identity_from_priv_key}
use rtc_bridge.Node.Channel.{no_session, World, on_command, trim_right}
use rtc_bridge.Client.{exits, Web, resolve, post, post_via_coordinator, send_messages, handshake_ok}
use rtc_bridge.Client.Handshake.{client_main-on_command}
use rtc_bridge.Client.Program.{
  Args, parsed, Peer, main, client_main_iff, make_offer, with_offer, with_answer, get_answer,
  post_signaling, talk, split_commas,
}
use rtc_bridge.Samples.{toy, priv, lettered}

abbrev node : Bytes → Node
node id = record {
  id = id;
  services = codes "echo" ∷ [];
  last_seen = 0;
  deadline = 0;
  pending = [];
}

abbrev two_nodes : Coordinator
two_nodes = record new_coordinator {
  nodes = (codes "n2", 1) ∷ (codes "n1", 0) ∷ [];
  heap = λ p. if p == 0 then some (node (codes "n1")) else some (node (codes "n2"));
}

abbrev get : Request
get = record { method = codes "GET"; body = inl [] }

-- A client whose coordinator knows two nodes.
abbrev web : Web Bytes
web = record {
  get_services = some (handle_services lettered get two_nodes);
  post_offer = λ offer. some (record { status = 504; body = [] });
  decode_services = λ body. some (services_of (entries two_nodes.heap two_nodes.nodes));
  encode_offer = λ service node_id offer. offer;
  decode_answer = λ body. some body;
}

refused_offer : post_via_coordinator web (codes "echo") (codes "n1") (codes "offer") ≡ exits
unfolding post_via_coordinator resolve post
refused_offer = refl

abbrev args : Args
args = record {
  signal = codes "http://s";
  coordinator = [];
  node = [];
  service = codes "echo";
  messages = codes "a,,b";
}

-- Everything works, and each message is echoed.
abbrev working : Peer Bytes
working = record {
  connects = true;
  makes_channel = true;
  offer = some (codes "offer");
  sets_local = λ o. true;
  local_description = codes "offer";
  encode_sdp = λ o. o;
  post_signal = λ url body. some (record { status = 200; body = codes "answer" });
  sets_remote = λ r. true;
  opens = true;
  sends_name = λ s. true;
  ack = some (codes "ok");
  sendable = λ k. true;
  reply = λ k. some (codes "x");
}

client_main_iff_example : (main working web (λ s. s) (parsed args)).1 ≡ 0
unfolding get_answer post_signaling split_commas bytes_eq
client_main_iff_example = (client_main_iff working web (λ s. s) args).1 (record {
  named = refl;
  offer = codes "offer";
  answer = codes "answer";
  connected = refl;
  channel = refl;
  offered = refl;
  local = refl;
  answered = refl;
  remote = refl;
  opened = refl;
  requested = refl;
  acknowledged = refl;
  replied = refl;
})

-- The messages of a run, and the end of one whose second message is not answered.
messages_sent :
    main working web (λ s. s) (parsed args) ≡ (codes "echo" ∷ codes "a\n" ∷ codes "b\n" ∷ [], 0)
unfolding main make_offer with_offer with_answer get_answer post_signaling talk split_commas
    handshake_ok send_messages bytes_eq
messages_sent = refl

unanswered :
    main
      (record working { reply = λ k. if k == 2 then none else some [] })
      web
      (λ s. s)
      (parsed args)
    ≡ (codes "echo" ∷ codes "a\n" ∷ codes "b\n" ∷ [], 1)
unfolding main make_offer with_offer with_answer get_answer post_signaling talk split_commas
    handshake_ok send_messages bytes_eq
unanswered = refl

-- A node that has the service.
abbrev world : World
world = record { random = none; dial_error = λ t. none }

abbrev echo_services : Map Bytes
echo_services = (codes "echo", codes "127.0.0.1:7777") ∷ []

abbrev refused : Peer Bytes
refused = record working { ack = some (codes "err: unknown command echo") }

client_main-on_command_example : (main refused web (λ s. s) (parsed args)).1 ≢ 0
unfolding on_command trim_right bytes_eq has_prefix
client_main-on_command_example =
    client_main-on_command refused web (λ s. s) args toy lettered (λ s. s)
      (identity_from_priv_key toy priv) echo_services world no_session
      (refl, refl, refl, refl, refl) refl
