-- ===== src/Client/Handshake.antt =====
-- The client's handshake against the node's command loop.
use rtc_bridge.Prelude.{
  Bytes, List, Map, Option, [], ap, bytes_eq, codes, false, has_prefix, none, refl, some, sym, true,
  ◌++◌, ◌∙◌, ◌∷◌, ◌≡◌, ◌≢◌,
}
use rtc_bridge.Protocol.Crypto.{Crypto}
use rtc_bridge.Wire.{Codec}
use rtc_bridge.Node.Identity.{Identity}
use rtc_bridge.Node.Channel.{
  Session, World, Output, After, goes_on, text_out, on_command, trim_right,
}
use rtc_bridge.Client.{Web, handshake_ok}
use rtc_bridge.Client.Program.{Args, parsed, Peer, main, client_main_iff}

-- No command: neither `ping` nor `list`, and none of the prefixes.
abbrev pub IsPlain : Bytes → Type 0
IsPlain name =
    (bytes_eq name (codes "ping") ≡ false)
    × (bytes_eq name (codes "list") ≡ false)
    × (has_prefix name (codes "challenge ") ≡ false)
    × (has_prefix name (codes "verify ") ≡ false)
    × (has_prefix name (codes "connect ") ≡ false)

handshake_ok-true : handshake_ok (some (codes "ok")) ≡ true
unfolding handshake_ok bytes_eq
handshake_ok-true = refl

-- For a name that is no command the node replies with an error, even if it has such a service.
handshake-on_command :
    (c : Crypto) (j : Codec) (quote : Bytes → Bytes) (id : Identity) (services : Map Bytes)
    (w : World) (s : Session) (name : Bytes)
    → IsPlain name
    → (reply : Bytes) × (on_command c j quote id services w s name
        ≡ some (text_out reply ∷ [], goes_on s))
      × (handshake_ok (some reply) ≡ false)
unfolding on_command handshake_ok bytes_eq
handshake-on_command c j quote id services w s name plain = (
  codes "err: unknown command " ++ quote name,
  rw (on_command, plain.0, plain.1, plain.2, plain.3, plain.4) refl,
  refl,
)

-- The first text that a round of the node's loop sends.
abbrev pub first_text : Option (List Output × After) → Option Bytes
first_text (some (text_out t ∷ out, end)) = some t
first_text _ = none

-- A client whose channel leads to a node's command loop, in any state: if the service's name, without
-- line ends behind it, is no command of the node, the client does not exit with 0, even if the node has
-- the service.
pub client_main-on_command :
    {Sdp : Type 0} (p : Peer Sdp) (web : Web Sdp) (trim_space : Bytes → Bytes) (a : Args)
    (c : Crypto) (j : Codec) (quote : Bytes → Bytes) (id : Identity) (services : Map Bytes)
    (w : World) (s : Session)
    → IsPlain (trim_right a.service)
    → p.ack ≡ first_text (on_command c j quote id services w s (trim_right a.service))
    → (main p web trim_space (parsed a)).1 ≢ 0
client_main-on_command p web trim_space a c j quote id services w s plain arrives passes =
    let (reply, e, refused) =
      handshake-on_command c j quote id services w s (trim_right a.service) plain in
    let v = (client_main_iff p web trim_space a).0 passes in
    let said : p.ack ≡ some reply = arrives ∙ ap first_text e in
    let ok = ap handshake_ok (sym said ∙ v.acknowledged) in cc (ok, refused, handshake_ok-true)
