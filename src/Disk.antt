-- ===== src/Disk.antt =====
-- What the three programs use of the packages `os` and `flag`. The state of the file system is of any
-- type.
pub mod Samples
use rtc_bridge.Prelude.{
  Bool, Bytes, List, Option, [], bytes_eq, codes, false, if_cases, if◌then◌else◌, not, refl, some,
  true, ℕ, ◌++◌, ◌||◌, ◌∙◌, ◌∷◌, ◌≡◌, ◌≢◌,
}

pub record Disk (S : Type 0) : Type 0 where
  -- `os.Stat` without an error.
  pub stat : Bytes → S → Bool
  pub read_file : Bytes → S → Option Bytes
  -- The flag tells whether `os.WriteFile` succeeds.
  pub write_file : Bytes → Bytes → S → S × Bool

-- What the package documents, while no other program writes.
pub record IsDisk {S : Type 0} (k : Disk S) : Type 0 where
  pub written :
      (p b : Bytes) (s : S)
      → (k.write_file p b s).1 ≡ true
      → k.read_file p (k.write_file p b s).0 ≡ some b
  pub others :
      (p q b : Bytes) (s : S) → p ≢ q → k.read_file q (k.write_file p b s).0 ≡ k.read_file q s
  pub readable : (p b : Bytes) (s : S) → k.read_file p s ≡ some b → k.stat p s ≡ true

-- `fs.Parse` of a flag set with the one flag `config`: a request for help, an error, or the path.
pub data Flags : Type 0 where
  help : Flags
  bad : Flags
  config : Bytes → Flags

-- How a program is left: it has exited with a code, or it goes on with what it serves.
pub data End (A : Type 0) : Type 0 where
  exits : ℕ → End A
  serves : A → End A

-- The file system that a command leaves, the lines on its standard output, and how it ends.
pub record Outcome (S A : Type 0) : Type 0 where
  pub disk : S
  pub out : List Bytes
  pub end : End A

-- `switch os.Args[1]`, the same in the three programs, where `run` and `init` are their commands.
unfoldable pub dispatch :
    {S A : Type 0}
    → (List Bytes → S → Outcome S A)
    → (List Bytes → S → Outcome S A)
    → List Bytes
    → S
    → Outcome S A
dispatch run init [] s = record { disk = s; out = []; end = exits 1 }
dispatch run init (program ∷ []) s = record { disk = s; out = []; end = exits 1 }
dispatch run init (program ∷ command ∷ args) s =
    if bytes_eq command (codes "run")
    then run args s
    else if bytes_eq command (codes "init")
    then init args s
    else if bytes_eq command (codes "-h")
        || bytes_eq command (codes "--help")
        || bytes_eq command (codes "help")
    then record { disk = s; out = []; end = exits 0 }
    else record { disk = s; out = []; end = exits 1 }

-- The head of `cmdRun` and `cmdInit`.
abbrev pub with_flags : {S A : Type 0} → (Bytes → S → Outcome S A) → Flags → S → Outcome S A
with_flags command help s = record { disk = s; out = []; end = exits 0 }
with_flags command bad s = record { disk = s; out = []; end = exits 1 }
with_flags command (config path) s = command path s

-- `cmdInit` of a path, with the text of the sample, as the coordinator and the echo server have it;
-- `quote` is the format %q.
unfoldable pub init_config :
    {S A : Type 0} → Disk S → (Bytes → Bytes) → Bytes → Bytes → S → Outcome S A
init_config k quote sample path s =
    let t = k.write_file path sample s in
    if k.stat path s
    then record { disk = s; out = []; end = exits 1 }
    else if not t.1
    then record { disk = t.0; out = []; end = exits 1 }
    else record {
      disk = t.0;
      out = (codes "wrote sample config to " ++ quote path) ∷ [];
      end = exits 0;
    }

-- No file that can be read is changed.
abbrev pub Keeps : {S : Type 0} → Disk S → S → S → Type 0
Keeps k s t = (q b : Bytes) → k.read_file q s ≡ some b → k.read_file q t ≡ some b

-- A write to a path that has no file keeps every file.
pub write_file-Keeps :
    {S : Type 0} (k : Disk S)
    → IsDisk k
    → (p b : Bytes) (s : S) → k.stat p s ≡ false
    → Keeps k s (k.write_file p b s).0
write_file-Keeps k d p b s absent q old e =
    let other : p ≢ q = λ same. cc (d.readable q old s e, absent, same) in
    d.others p q b s other ∙ e

-- A program keeps every file if its commands do.
pub dispatch-Keeps :
    {S A : Type 0} (k : Disk S) (run init : List Bytes → S → Outcome S A)
    → ((args : List Bytes) (s : S) → Keeps k s (run args s).disk)
    → ((args : List Bytes) (s : S) → Keeps k s (init args s).disk)
    → (args : List Bytes) (s : S) → Keeps k s (dispatch run init args s).disk
unfolding dispatch
dispatch-Keeps k run init r i [] s = λ q b e. e
dispatch-Keeps k run init r i (program ∷ []) s = λ q b e. e
dispatch-Keeps k run init r i (program ∷ command ∷ args) s =
    let P = λ (o : Outcome _ _). Keeps k s o.disk in
    if_cases P (bytes_eq command (codes "run")) (λ _. r args s)
      (λ _.
        if_cases P (bytes_eq command (codes "init")) (λ _. i args s)
          (λ _. if_cases P _ (λ _ q b e. e) (λ _ q b e. e)))

pub with_flags-Keeps :
    {S A : Type 0} (k : Disk S) (command : Bytes → S → Outcome S A) (flags : Flags) (s : S)
    → ((path : Bytes) → Keeps k s (command path s).disk)
    → Keeps k s (with_flags command flags s).disk
with_flags-Keeps k command help s h = λ q b e. e
with_flags-Keeps k command bad s h = λ q b e. e
with_flags-Keeps k command (config path) s h = h path

pub init_config-Keeps :
    {S : Type 0} (A : Type 0) (k : Disk S) (quote : Bytes → Bytes) (sample path : Bytes) (s : S)
    → IsDisk k
    → Keeps k s (init_config {A = A} k quote sample path s).disk
unfolding init_config
init_config-Keeps {S} A k quote sample path s d =
    let P = λ (o : Outcome S A). Keeps k s o.disk in
    if_cases P (k.stat path s) (λ _ q b e. e)
      (λ absent.
        if_cases P (not (k.write_file path sample s).1)
          (λ _. write_file-Keeps k d path sample s absent)
          (λ _. write_file-Keeps k d path sample s absent))

-- A sample is written where there is no file.
pub init_config-written :
    {S A : Type 0} (k : Disk S) (quote : Bytes → Bytes) (sample path : Bytes) (s : S)
    → k.stat path s ≡ false
    → (k.write_file path sample s).1 ≡ true
    → init_config {A = A} k quote sample path s ≡ record {
      disk = (k.write_file path sample s).0;
      out = (codes "wrote sample config to " ++ quote path) ∷ [];
      end = exits 0;
    }
unfolding init_config
init_config-written k quote sample path s absent ok = rw (init_config, absent, ok) refl
