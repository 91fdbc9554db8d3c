-- ===== src/Coordinator/Command/Tests.antt =====
-- The command line of the coordinator at concrete arguments.
use rtc_bridge.Prelude.{Bool, Bytes, [], bytes_eq, codes, false, lookup, refl, true, ◌∷◌, ◌≡◌}
use rtc_bridge.Json.{read_object}
use rtc_bridge.Json.Samples.{holding, addr_object}
use rtc_bridge.Disk.{exits}
use rtc_bridge.Disk.Samples.{memory, flags}
use rtc_bridge.Coordinator.Config.{load_config}
use rtc_bridge.Coordinator.Command.{cmd_run, run_config}

abbrev addr : Bytes
addr = codes "0.0.0.0:8765"

abbrev free : Bytes → Bool
free a = true

-- An address that is taken, after the line that says the coordinator listens on it.
taken_address :
    (cmd_run memory
      (holding (addr_object addr))
      flags
      (λ s. s)
      (λ a. false)
      []
      ((codes "config.json5", []) ∷ [])).end
    ≡ exits 1
unfolding cmd_run run_config load_config read_object lookup bytes_eq
taken_address = refl
