-- ===== src/Coordinator/Command.antt =====
-- coordinator/main.go: the command line.
mod Tests
use rtc_bridge.Prelude.{
  Bool, Bytes, List, Sum-cases, [], codes, false, if◌then◌else◌, inl, inr, refl, some, true, ◌++◌,
  ◌∷◌, ◌≡◌,
}
use rtc_bridge.Json.{Formats, IsFormats, text, read_object}
use rtc_bridge.Disk.{
  Disk, IsDisk, Flags, help, bad, config, End, exits, serves, Outcome, dispatch, with_flags,
  init_config, Keeps, dispatch-Keeps, with_flags-Keeps, init_config-Keeps, init_config-written,
}
use rtc_bridge.Coordinator.Config.{load_config, coordinator_config_iff}

-- `sampleConfig`.
abbrev pub sample_config : Bytes
sample_config = codes "{\n  // Address to listen on.\n  addr: \"0.0.0.0:8765\",\n}\n"

-- `quote` is the format %q, and `listens` tells whether
-- `http.ListenAndServe` can listen on an address. A server
-- goes on with its address.
module _ {S : Type 0} (k : Disk S) (f : Formats) (flags : List Bytes → Flags)
    (quote : Bytes → Bytes) (listens : Bytes → Bool) where
  -- `cmdRun` of a path.
  unfoldable pub run_config : Bytes → S → Outcome S Bytes
  run_config path s = elim (load_config f (k.read_file path s)) [
    | inl e ↦ record { disk = s; out = []; end = exits 1 }
    | inr cfg ↦ record {
      disk = s;
      out = (codes "coordinator listening on " ++ cfg.addr) ∷ [];
      end = (if listens cfg.addr then serves cfg.addr else exits 1);
    }
  ]

  -- `cmdRun`.
  unfoldable pub cmd_run : List Bytes → S → Outcome S Bytes
  unfolding run_config
  cmd_run args s = with_flags run_config (flags args) s

  -- `cmdInit`.
  unfoldable pub cmd_init : List Bytes → S → Outcome S Bytes
  unfolding init_config
  cmd_init args s = with_flags (init_config k quote sample_config) (flags args) s

  -- `main`.
  unfoldable pub main : List Bytes → S → Outcome S Bytes
  unfolding cmd_run cmd_init
  main args s = dispatch cmd_run cmd_init args s

  run_config-Keeps : (path : Bytes) (s : S) → Keeps k s (run_config path s).disk
  unfolding run_config
  run_config-Keeps path s = elim (Sum-cases (load_config f (k.read_file path s))) [
    | inl (e, l) ↦ rw (run_config, l) (λ q b r. r)
    | inr (cfg, l) ↦ rw (run_config, l) (λ q b r. r)
  ]

  -- Whatever its arguments, the program changes no file that can be read.
  coordinator_main-Keeps : IsDisk k → (args : List Bytes) (s : S) → Keeps k s (main args s).disk
  unfolding main cmd_run cmd_init
  coordinator_main-Keeps d =
      dispatch-Keeps k cmd_run cmd_init
        (λ args s. with_flags-Keeps k run_config (flags args) s λ path. run_config-Keeps path s)
        (λ args s.
          with_flags-Keeps k (init_config k quote sample_config) (flags args) s
            λ path. init_config-Keeps Bytes k quote sample_config path s d)

  -- When `init` has written its sample to a path without a file, `run` with the same arguments listens
  -- on the address of the sample: the parser reads the sample as the object that it shows.
  coordinator_init-run :
      IsDisk k
      → IsFormats f
      → (args : List Bytes) (path : Bytes) (s : S) → flags args ≡ config path
      → k.stat path s ≡ false
      → (k.write_file path sample_config s).1 ≡ true
      → listens (codes "0.0.0.0:8765") ≡ true
      → read_object f (some sample_config) ≡ inr ((codes "addr", text (codes "0.0.0.0:8765")) ∷ [])
      → ((cmd_init args s).end ≡ exits 0)
        × ((cmd_run args (cmd_init args s).disk).end ≡ serves (codes "0.0.0.0:8765"))
  unfolding cmd_init cmd_run run_config
  coordinator_init-run d ok args path s flag absent wrote free reads =
      let t = (k.write_file path sample_config s).0 in
      let made = init_config-written {A = Bytes} k quote sample_config path s absent wrote in
      let loaded : load_config f (k.read_file path t)
          ≡ inr (record { addr = codes "0.0.0.0:8765" }) =
        rw (d.written path sample_config s wrote) (
          (coordinator_config_iff f (some sample_config) (record { addr = codes "0.0.0.0:8765" })
              ok).1
            (reads, λ e. cc)) in
      (rw (flag, made) refl, rw (flag, made, run_config, loaded, free) refl)
