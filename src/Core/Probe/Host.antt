-- ===== src/Core/Probe/Host.antt =====
-- crates/sshe-core/src/probe/host.rs: the state of this machine, from the texts under /proc. A
-- floating-point number, its parser and `statvfs` are parameters; a u64 wraps around.
use Prim.Native.String.{◌++◌ as append}
use sshe.Prelude.{
  String, Option, ℕ, Result, List, ok, err, and_then, ok_or, map_ok, map_err, ◌>>=◌, ◌*◌, ◌%◌, ◌^◌,
  [], ◌∷◌, none, some, strip_prefix, trim, first?,
}
use sshe.Io.{IoError}
use sshe.Protocol.Message.{ProbeKind, Record}
use sshe.Core.Error.{Error, io, json, system, invalid}
use sshe.Core.Probe.{Timed, Outside, measure, core_errors}

pub record LoadAvg (F64 : Type 0) : Type 0 where
  pub one : F64
  pub five : F64
  pub fifteen : F64

pub record Memory : Type 0 where
  pub total_bytes : ℕ
  pub available_bytes : ℕ
  pub swap_total_bytes : ℕ
  pub swap_free_bytes : ℕ

pub record Disk : Type 0 where
  pub total_bytes : ℕ
  pub available_bytes : ℕ

pub record HostInfo (F64 : Type 0) : Type 0 where
  pub hostname : String
  pub uptime_seconds : F64
  pub loadavg : LoadAvg F64
  pub memory : Memory
  pub root_disk : Disk

-- `statvfs`
pub record Statvfs : Type 0 where
  pub blocks : ℕ
  pub blocks_available : ℕ
  pub fragment_size : ℕ

-- What a machine offers: its files, and the functions of `str` on their texts.
pub record Machine (Value : Type 0) : Type 1 where
  pub F64 : Type 0
  -- `str::parse`
  pub parse_f64 : String → Option F64
  pub parse_u64 : String → Option ℕ
  pub split_whitespace : String → List String
  pub lines : String → List String
  pub strip_suffix : String → String → Option String
  pub read_to_string : String → Result IoError String
  -- of the root directory
  pub statvfs : Option Statvfs
  -- `serde_json::to_value`
  pub to_value : HostInfo F64 → Option Value
  -- when all of it is read, if ever
  pub ready_at : Option ℕ

abbrev unexpected : String → Error
unexpected what = invalid (append "unexpected " (append what " format"))

-- a product of two u64
abbrev times : ℕ → ℕ → ℕ
times a b = a * b % 2 ^ 64

-- `find_map`
abbrev find_map : {A B : Type 0} → (A → Option B) → List A → Option B
find_map f [] = none
find_map f (a ∷ more) = let rest = find_map f more in elim (f a) [ some b ↦ some b | none ↦ rest ]

module _ {Value : Type 0} (machine : Machine Value) where
  open machine use {
    F64, parse_f64, parse_u64, split_whitespace, lines, strip_suffix, read_to_string, statvfs,
    to_value, ready_at,
  }

  pub parse_uptime : String → Result Error F64
  parse_uptime text =
      ok_or (and_then (first? (split_whitespace text)) parse_f64) (unexpected "/proc/uptime")

  -- `next()`: the first field, and the fields after it
  next_field : List String → Result Error (F64 × List String)
  next_field [] = err (unexpected "/proc/loadavg")
  next_field (field ∷ fields) =
      map_ok (λ v. (v, fields)) (ok_or (parse_f64 field) (unexpected "/proc/loadavg"))

  pub parse_loadavg : String → Result Error (LoadAvg F64)
  parse_loadavg text = do
    first ← next_field (split_whitespace text)
    second ← next_field first.1
    third ← next_field second.1
    ok (record { one = first.0; five = second.0; fifteen = third.0 })

  -- what a line says of a name
  of_line : String → String → Option String
  of_line name line = and_then (strip_prefix name line) (strip_prefix ":")

  kib : String → Option ℕ
  kib v = and_then (strip_suffix "kB" (trim v)) (λ n. parse_u64 (trim n))

  pub meminfo_field : String → String → Result Error ℕ
  meminfo_field text name =
      map_ok (λ n. times n 1024)
        (ok_or (and_then (find_map (of_line name) (lines text)) kib)
          (invalid (append "/proc/meminfo lacks " name)))

  pub parse_meminfo : String → Result Error Memory
  parse_meminfo text = do
    total ← meminfo_field text "MemTotal"
    available ← meminfo_field text "MemAvailable"
    swap_total ← meminfo_field text "SwapTotal"
    swap_free ← meminfo_field text "SwapFree"
    ok (record {
      total_bytes = total;
      available_bytes = available;
      swap_total_bytes = swap_total;
      swap_free_bytes = swap_free;
    })

  abbrev proc_file : String → Result Error String
  proc_file path = map_err io (read_to_string path)

  pub host_info : Result Error (HostInfo F64)
  host_info = do
    hostname ← proc_file "/proc/sys/kernel/hostname"
    uptime_text ← proc_file "/proc/uptime"
    load_text ← proc_file "/proc/loadavg"
    memory_text ← proc_file "/proc/meminfo"
    disk ← ok_or statvfs system
    uptime ← parse_uptime uptime_text
    load ← parse_loadavg load_text
    memory ← parse_meminfo memory_text
    ok (record {
      hostname = trim hostname;
      uptime_seconds = uptime;
      loadavg = load;
      memory = memory;
      root_disk = record {
        total_bytes = times disk.blocks disk.fragment_size;
        available_bytes = times disk.blocks_available disk.fragment_size;
      };
    })

  host_value : Result Error (Option Value)
  host_value = do info ← host_info; value ← ok_or (to_value info) json; ok (some value)

  -- the future of the check
  pub host_future : Timed (Result Error (Option Value))
  host_future = elim ready_at [ none ↦ none | some at ↦ some (at, host_value) ]

  unfoldable pub host_probe : Outside Value → ℕ → ℕ × List (Record Value)
  host_probe outside limit =
      let (at, r) =
        measure (core_errors outside) outside.now ProbeKind.host "host" none "procfs" limit
          host_future in
      (at, r ∷ [])
