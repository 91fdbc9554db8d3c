-- ===== src/Echo/Command/Tests.antt =====
-- The command line of the echo server at concrete arguments.
use rtc_bridge.Prelude.{Bool, Bytes, [], bytes_eq, codes, refl, true, ◌∷◌, ◌≡◌}
use rtc_bridge.Json.Samples.{holding}
use rtc_bridge.Disk.{exits, dispatch}
use rtc_bridge.Disk.Samples.{memory, flags}
use rtc_bridge.Echo.Command.{cmd_run, main}

abbrev addr : Bytes
addr = codes "127.0.0.1:7777"

abbrev free : Bytes → Bool
free a = true

-- No command, an unknown one, and a call for help.
no_command : (main memory (holding []) flags (λ s. s) free (codes "echo" ∷ []) []).end ≡ exits 1
unfolding main dispatch
no_command = refl

unknown_command :
    (main memory (holding []) flags (λ s. s) free (codes "echo" ∷ codes "start" ∷ []) []).end
    ≡ exits 1
unfolding main dispatch bytes_eq
unknown_command = refl

run_help :
    (main memory
      (holding [])
      flags
      (λ s. s)
      free
      (codes "echo" ∷ codes "run" ∷ codes "-h" ∷ [])
      []).end
    ≡ exits 0
unfolding main dispatch cmd_run bytes_eq
run_help = refl
