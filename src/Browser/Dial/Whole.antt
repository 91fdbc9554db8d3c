-- ===== src/Browser/Dial/Whole.antt =====
-- Browser, coordinator and node together: from `dial` to `verifyIdentity`.
use rtc_bridge.Protocol.Crypto.{Crypto}
use rtc_bridge.Browser.{Channel}
