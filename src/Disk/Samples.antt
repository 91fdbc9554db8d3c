-- ===== src/Disk/Samples.antt =====
-- A file system in memory, for the tests.
use rtc_bridge.Prelude.{
  Bool, Bytes, List, Map, Option, [], arith, bytes_eq, bytes_eq_iff, codes, false, if◌then◌else◌,
  insert, lookup, lookup-insert, none, refl, some, true, ◌∷◌,
}
use rtc_bridge.Disk.{Disk, IsDisk, Flags, help, bad, config}

abbrev is_there : Option Bytes → Bool
is_there none = false
is_there (some b) = true

-- A write to the empty path fails.
abbrev pub memory : Disk (Map Bytes)
memory = record {
  stat = λ p s. is_there (lookup p s);
  read_file = lookup;
  write_file = λ p b s. if bytes_eq p [] then (s, false) else (insert p b s, true);
}

pub memory-IsDisk : IsDisk memory
memory-IsDisk = record {
  written = λ p b s. ground (arith, bytes_eq_iff p p, lookup-insert p p b s);
  others = λ p q b s. ground (arith, bytes_eq_iff p q, lookup-insert p q b s);
  readable = λ p b s e. rw e refl;
}

-- `-h`, or the path that the flag `-config` names.
abbrev pub flags : List Bytes → Flags
flags [] = config (codes "config.json5")
flags (option ∷ []) = if bytes_eq option (codes "-h") then help else bad
flags (option ∷ path ∷ rest) = if bytes_eq option (codes "-config") then config path else bad
