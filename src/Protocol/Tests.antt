-- ===== src/Protocol/Tests.antt =====
-- The theorems of the protocol at concrete values.
use rtc_bridge.Prelude.{codes, length, refl, some, true, ◌<◌, ◌↔◌, ◌≡◌, ◌≤◌}
use rtc_bridge.Protocol.Registration.{verify_registration}
use rtc_bridge.Protocol.Registration.Proof.{IsProved, verify_registration_iff}
use rtc_bridge.Protocol.NodeId.{node_id, text}
use rtc_bridge.Protocol.NodeId.Laws.{node_id_shape, value-text, value, IsBase36}
use rtc_bridge.Samples.{toy, toy-IsDigest, r_node, r_coord, reg}

text_test : text 46655 ≡ codes "zzz"
unfolding text
text_test = refl

value-text_example : value 0 (text 12345) ≡ 12345
value-text_example = value-text 12345

node_id_shape_example :
    IsBase36 (node_id toy (codes "key"))
    × (0 < length (node_id toy (codes "key")))
    × (length (node_id toy (codes "key")) ≤ 30)
node_id_shape_example = node_id_shape toy (codes "key")

verify_registration_iff_example :
    (verify_registration toy reg r_node r_coord ≡ some true) ↔ IsProved toy reg r_node r_coord
verify_registration_iff_example = verify_registration_iff toy-IsDigest reg r_node r_coord
