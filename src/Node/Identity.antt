-- ===== src/Node/Identity.antt =====
-- node/identity.go.
use rtc_bridge.Prelude.{Bytes}
use rtc_bridge.Protocol.Crypto.{Crypto}
use rtc_bridge.Protocol.NodeId.{node_id}

pub record Identity : Type 0 where
  pub priv_key : Bytes
  pub pub_key : Bytes
  pub node_id : Bytes

-- `IdentityFromPrivKey`.
unfoldable pub identity_from_priv_key : Crypto → Bytes → Identity
identity_from_priv_key c priv =
    let key = c.public priv in record { priv_key = priv; pub_key = key; node_id = node_id c key }

-- `Sign`.
unfoldable pub sign : Crypto → Identity → Bytes → Bytes
sign c id payload = c.sign id.priv_key payload
