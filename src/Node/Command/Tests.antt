-- ===== src/Node/Command/Tests.antt =====
-- The command line of a node at concrete arguments.
use rtc_bridge.Prelude.{Bytes, List, [], codes, some, ◌∷◌}
use rtc_bridge.Json.Samples.{holding}
use rtc_bridge.Disk.{Keeps}
use rtc_bridge.Disk.Samples.{memory, memory-IsDisk, flags}
use rtc_bridge.Samples.{toy}
use rtc_bridge.Node.Config.Tests.{key}
use rtc_bridge.Node.Command.{main, node_main-Keeps}

abbrev args : List Bytes
args = codes "-config" ∷ codes "a.json5" ∷ []

-- The second `init` does not write.
node_main-Keeps_example :
    Keeps memory
      ((codes "a.json5", codes "old") ∷ [])
      (main memory toy
        (holding [])
        flags
        (λ s. s)
        (some key)
        (codes "rtc-bridge" ∷ codes "init" ∷ args)
        ((codes "a.json5", codes "old") ∷ [])).disk
node_main-Keeps_example =
    node_main-Keeps memory toy (holding []) flags (λ s. s) (some key) memory-IsDisk
      (codes "rtc-bridge" ∷ codes "init" ∷ args) ((codes "a.json5", codes "old") ∷ [])
