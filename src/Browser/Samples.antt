-- ===== src/Browser/Samples.antt =====
-- What the tests of the browser's library share: crypto.subtle for the stand-in of the cryptography,
-- and a node.
use rtc_bridge.Prelude.{Bytes, Map, [], arith, codes, none, refl, replicate, some, ◌∷◌}
use rtc_bridge.Protocol.NodeId.{node_id}
use rtc_bridge.Node.Channel.{World}
use rtc_bridge.Browser.{Subtle}
use rtc_bridge.Browser.NodeIds.{IsSubtle}
use rtc_bridge.Browser.Honest.{IsSigner}
use rtc_bridge.Samples.{toy, priv, sign-IsBytes, r_node}

abbrev pub quote : Bytes → Bytes
quote s = s

abbrev pub subtle : Subtle
subtle = record { digest = toy.sum256; verify = λ key m sig. some (toy.verify key m sig) }

pub subtle-IsSubtle : IsSubtle toy subtle
subtle-IsSubtle = record { same_digest = λ b. refl; same_verify = λ key m sig h. refl }

pub priv-IsSigner : IsSigner toy priv
priv-IsSigner = record {
  public-IsBytes = omega arith;
  sign-IsBytes = sign-IsBytes;
  some_length = λ m. omega arith;
}

abbrev pub services : Map Bytes
services = (codes "echo", codes "127.0.0.1:7777") ∷ []

abbrev pub world : World
world = record { random = some r_node; dial_error = λ target. none }

abbrev pub r_client : Bytes
r_client = replicate 32 5

abbrev pub own_id : Bytes
own_id = node_id toy (replicate 32 7)
