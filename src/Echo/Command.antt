-- ===== src/Echo/Command.antt =====
-- echo/main.go: the command line.
mod Tests
use rtc_bridge.Prelude.{
  Bool, Bool-cases, Bytes, List, Sum-cases, [], codes, false, if◌then◌else◌, inl, inr, not, refl,
  some, true, ◌++◌, ◌∷◌, ◌≡◌,
}
use rtc_bridge.Json.{Formats, IsFormats, text, read_object}
use rtc_bridge.Disk.{
  Disk, IsDisk, Flags, help, bad, config, End, exits, serves, Outcome, dispatch, with_flags,
  init_config, Keeps, dispatch-Keeps, with_flags-Keeps, init_config-Keeps, init_config-written,
}
use rtc_bridge.Echo.{load_config, sample_config, echo_config_iff}

-- `quote` is the format %q, and `listens` tells whether `net.Listen` succeeds on an address. A server
-- goes on with its address.
module _ {S : Type 0} (k : Disk S) (f : Formats) (flags : List Bytes → Flags)
    (quote : Bytes → Bytes) (listens : Bytes → Bool) where
  -- `cmdRun` of a path.
  unfoldable pub run_config : Bytes → S → Outcome S Bytes
  run_config path s = elim (load_config f (k.read_file path s)) [
    | inl e ↦ record { disk = s; out = []; end = exits 1 }
    | inr addr ↦
        if not (listens addr) then record { disk = s; out = []; end = exits 1 } else record {
          disk = s;
          out = (codes "echo server listening on " ++ addr) ∷ [];
          end = serves addr;
        }
  ]

  -- `cmdRun`.
  unfoldable pub cmd_run : List Bytes → S → Outcome S Bytes
  unfolding run_config
  cmd_run args s = with_flags run_config (flags args) s

  -- `cmdInit`.
  unfoldable pub cmd_init : List Bytes → S → Outcome S Bytes
  unfolding init_config
  cmd_init args s = with_flags (init_config k quote sample_config) (flags args) s

  -- `main`.
  unfoldable pub main : List Bytes → S → Outcome S Bytes
  unfolding cmd_run cmd_init
  main args s = dispatch cmd_run cmd_init args s

  run_config-Keeps : (path : Bytes) (s : S) → Keeps k s (run_config path s).disk
  unfolding run_config
  run_config-Keeps path s = elim (Sum-cases (load_config f (k.read_file path s))) [
    | inl (e, l) ↦ rw (run_config, l) (λ q b r. r)
    | inr (addr, l) ↦ elim (Bool-cases (listens addr)) [
      | inl ok ↦ rw (run_config, l, ok) (λ q b r. r)
      | inr failed ↦ rw (run_config, l, failed) (λ q b r. r)
    ]
  ]

  -- Whatever its arguments, the program changes no file that can be read.
  echo_main-Keeps : IsDisk k → (args : List Bytes) (s : S) → Keeps k s (main args s).disk
  unfolding main cmd_run cmd_init
  echo_main-Keeps d =
      dispatch-Keeps k cmd_run cmd_init
        (λ args s. with_flags-Keeps k run_config (flags args) s λ path. run_config-Keeps path s)
        (λ args s.
          with_flags-Keeps k (init_config k quote sample_config) (flags args) s
            λ path. init_config-Keeps Bytes k quote sample_config path s d)

  -- When `init` has written its sample to a path without a file, `run` with the same arguments listens
  -- on the address of the sample: the parser reads the sample as the object that it shows.
  echo_init-run :
      IsDisk k
      → IsFormats f
      → (args : List Bytes) (path : Bytes) (s : S) → flags args ≡ config path
      → k.stat path s ≡ false
      → (k.write_file path sample_config s).1 ≡ true
      → listens (codes "127.0.0.1:7777") ≡ true
      → read_object f (some sample_config)
        ≡ inr ((codes "addr", text (codes "127.0.0.1:7777")) ∷ [])
      → ((cmd_init args s).end ≡ exits 0)
        × ((cmd_run args (cmd_init args s).disk).end ≡ serves (codes "127.0.0.1:7777"))
  unfolding cmd_init cmd_run run_config
  echo_init-run d ok args path s flag absent wrote free reads =
      let t = (k.write_file path sample_config s).0 in
      let made = init_config-written {A = Bytes} k quote sample_config path s absent wrote in
      let loaded : load_config f (k.read_file path t) ≡ inr (codes "127.0.0.1:7777") =
        rw (d.written path sample_config s wrote) (
          (echo_config_iff f (some sample_config) (codes "127.0.0.1:7777") ok).1
            (reads, λ e. cc)) in
      (rw (flag, made) refl, rw (flag, made, run_config, loaded, free) refl)
