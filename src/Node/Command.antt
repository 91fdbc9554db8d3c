-- ===== src/Node/Command.antt =====
-- node/main.go: the command line.
mod Tests
use rtc_bridge.Prelude.{
  Bytes, List, Map, Option, Sum-cases, [], codes, false, if_cases, if◌then◌else◌, inl, inr, none,
  not, some, ◌++◌, ◌∷◌, ◌≡◌,
}
use rtc_bridge.Json.{Formats, IsFormats, read_object}
use rtc_bridge.Disk.{
  Disk, IsDisk, Flags, config, End, exits, serves, Outcome, dispatch, with_flags, Keeps,
  write_file-Keeps, dispatch-Keeps, with_flags-Keeps,
}
use rtc_bridge.Protocol.Crypto.{Crypto}
use rtc_bridge.Node.Identity.{Identity, identity_from_priv_key}
use rtc_bridge.Node.Config.{Config, load_config, generate_sample_config}

-- A node that runs: `runCoordinator` is started once for each URL, with the same identity and
-- services. `cmdRun` returns when the context is cancelled.
pub record Serving : Type 0 where
  pub id : Identity
  pub services : Map Bytes
  pub urls : List Bytes

abbrev pub node_id_line : Identity → Bytes
node_id_line id = codes "node id: " ++ id.node_id

-- `quote` is the format %q, and `key` what `ed25519.GenerateKey` returns, `none` for an error.
module _ {S : Type 0} (k : Disk S) (c : Crypto) (f : Formats) (flags : List Bytes → Flags)
    (quote : Bytes → Bytes) (key : Option Bytes) where
  -- `cmdRun` of a path.
  unfoldable pub run_node : Bytes → S → Outcome S Serving
  run_node path s = elim (load_config f (k.read_file path s)) [
    | inl e ↦ record { disk = s; out = []; end = exits 1 }
    | inr cfg ↦
        let id = identity_from_priv_key c cfg.priv_key in
        record {
          disk = s;
          out = node_id_line id ∷ [];
          end = serves (record { id = id; services = cfg.services; urls = cfg.coordinators });
        }
  ]

  -- `cmdRun`.
  unfoldable pub cmd_run : List Bytes → S → Outcome S Serving
  unfolding run_node
  cmd_run args s = with_flags run_node (flags args) s

  -- `cmdInit` of a path where there is no file, with a new key.
  unfoldable pub write_config : Bytes → Bytes → S → Outcome S Serving
  write_config path priv s =
      let t = k.write_file path (generate_sample_config f priv) s in
      if not t.1 then record { disk = t.0; out = []; end = exits 1 } else record {
        disk = t.0;
        out =
            (codes "wrote config to " ++ quote path)
            ∷ node_id_line (identity_from_priv_key c priv)
            ∷ [];
        end = exits 0;
      }

  -- `cmdInit` of a path where there is no file.
  abbrev pub with_key : Option Bytes → Bytes → S → Outcome S Serving
  with_key none path s = record { disk = s; out = []; end = exits 1 }
  with_key (some priv) path s = write_config path priv s

  -- `cmdInit` of a path.
  unfoldable pub init_node : Bytes → S → Outcome S Serving
  unfolding write_config
  init_node path s =
      if k.stat path s then record { disk = s; out = []; end = exits 1 } else with_key key path s

  -- `cmdInit`.
  unfoldable pub cmd_init : List Bytes → S → Outcome S Serving
  unfolding init_node
  cmd_init args s = with_flags init_node (flags args) s

  -- `main`.
  unfoldable pub main : List Bytes → S → Outcome S Serving
  unfolding cmd_run cmd_init
  main args s = dispatch cmd_run cmd_init args s

  run_node-Keeps : (path : Bytes) (s : S) → Keeps k s (run_node path s).disk
  unfolding run_node
  run_node-Keeps path s = elim (Sum-cases (load_config f (k.read_file path s))) [
    | inl (e, l) ↦ rw (run_node, l) (λ q b r. r)
    | inr (cfg, l) ↦ rw (run_node, l) (λ q b r. r)
  ]

  with_key-Keeps :
      IsDisk k
      → (o : Option Bytes) (path : Bytes) (s : S) → k.stat path s ≡ false
      → Keeps k s (with_key o path s).disk
  unfolding write_config
  with_key-Keeps d none path s absent = λ q b e. e
  with_key-Keeps d (some priv) path s absent =
      let kept = write_file-Keeps k d path (generate_sample_config f priv) s absent in
      if_cases (λ (o : Outcome S Serving). Keeps k s o.disk)
        (not (k.write_file path (generate_sample_config f priv) s).1) (λ _. kept) (λ _. kept)

  init_node-Keeps : IsDisk k → (path : Bytes) (s : S) → Keeps k s (init_node path s).disk
  unfolding init_node
  init_node-Keeps d path s =
      if_cases (λ (o : Outcome S Serving). Keeps k s o.disk) (k.stat path s) (λ _ q b e. e)
        (λ absent. with_key-Keeps d key path s absent)

  -- Whatever its arguments, the program changes no file that can be read: `init` never writes over a
  -- configuration, and so not over a node's key.
  pub node_main-Keeps : IsDisk k → (args : List Bytes) (s : S) → Keeps k s (main args s).disk
  unfolding main cmd_run cmd_init
  node_main-Keeps d =
      dispatch-Keeps k cmd_run cmd_init
        (λ args s. with_flags-Keeps k run_node (flags args) s λ path. run_node-Keeps path s)
        (λ args s. with_flags-Keeps k init_node (flags args) s λ path. init_node-Keeps d path s)
