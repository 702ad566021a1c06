-- ===== src/Ssher/Cache.antt =====
-- crates/ssher/src/ssher/cache.rs: the last endpoint found for each host, in one TOML file. Times
-- are seconds since 1970. The clock, the files and the TOML text are parameters.
pub mod Stored
mod Tests
use Prim.Native.String.{◌++◌ as append}
use sshe.Prelude.Maps
use sshe.Prelude.Maps.{string_key}
use sshe.Prelude.{
  str_eq, any, ◌||◌, ◌==◌, not, none, map_err, and_then, ◌-◌, leb, ◌+◌, some, false, ok, true, ◌^◌,
  min, if◌then◌else◌, ◌>>=◌, ok_or, err, Result, ℕ, String, Bool, Option, [], ◌∷◌,
}
use sshe.Io.{IoError, ErrorKind}
use sshe.Ssher.Error.{Error, io, parse, serialize, clock, invalid}
use sshe.Ssher.Config.{
  SelectionMode, CacheConfig, FinalHostConfig, lowest_icmp_latency, lowest_tcp_latency,
}

pub data ProbeSource : Type 0 where
  cache probe : ProbeSource

pub record ProbeResult : Type 0 where
  pub endpoint : String
  pub latency_ms : ℕ
  pub source : ProbeSource

pub record CacheEntry : Type 0 where
  pub endpoint : String
  pub latency_ms : ℕ
  pub expires_at_unix : ℕ
  pub port : ℕ
  pub selection_mode : SelectionMode

pub record CacheFile : Type 0 where
  pub entries : Maps.Map String CacheEntry

-- `toml::to_string` and `from_str`; `none` is an error.
pub record Toml (T : Type 0) : Type 0 where
  pub to_string : T → Option String
  pub from_str : String → Option T

-- The file system and the clock; `none` is a clock before 1970.
pub record Files : Type 1 where
  pub World : Type 0
  pub now : World → Option ℕ
  pub read_to_string : World → String → Result IoError String
  pub parent : String → Option String
  pub create_dir_all : World → String → Result IoError Unit × World
  pub write : World → String → String → Result IoError Unit × World

abbrev pub u64_max : ℕ
u64_max = 2 ^ 64 - 1

-- `==` on `SelectionMode`
abbrev pub same_mode : SelectionMode → SelectionMode → Bool
same_mode lowest_icmp_latency lowest_icmp_latency = true
same_mode lowest_tcp_latency lowest_tcp_latency = true
same_mode _ _ = false

-- The tests on an entry that is there.
pub fresh : FinalHostConfig → ℕ → ℕ → CacheEntry → Option ProbeResult
fresh host port now entry =
    if leb entry.expires_at_unix now
    then none
    else if not (entry.port == port) || not (same_mode entry.selection_mode host.selection_mode)
    then none
    else if not (any (λ endpoint. str_eq endpoint entry.endpoint) host.endpoints)
    then none
    else some (record { endpoint = entry.endpoint; latency_ms = entry.latency_ms; source = cache })

-- The entry that is written for a probe's result.
pub entry_of : CacheConfig → FinalHostConfig → ℕ → ProbeResult → ℕ → CacheEntry
entry_of c host port result now = record {
  endpoint = result.endpoint;
  latency_ms = min result.latency_ms u64_max;
  expires_at_unix = min (now + c.ttl_sec) u64_max;
  port = port;
  selection_mode = host.selection_mode;
}

abbrev empty_cache : CacheFile
empty_cache = record { entries = [] }

-- `err.kind() == NotFound`
abbrev is_not_found : IoError → Bool
is_not_found e = elim e.kind [ ErrorKind.not_found ↦ true | _ ↦ false ]

module _ (files : Files) (toml : Toml CacheFile) where
  open files use {World, now, read_to_string, parent, create_dir_all, write}

  pub read_cache_file : World → String → Result Error CacheFile
  read_cache_file w path = elim (read_to_string w path) [
    | ok content ↦
        ok_or (toml.from_str content) (Error.parse (append "failed to parse cache file " path))
    | err e ↦
        if is_not_found e
        then ok empty_cache
        else err (io (append "failed to read cache file " path) e)
  ]

  pub write_file : World → String → Option String → Result Error Unit × World
  write_file w path none = (err serialize, w)
  write_file w path (some content) =
      let (r, w') = write w path content in (map_err (io (append "write cache " path)) r, w')

  pub write_cache_file : World → String → CacheFile → Result Error Unit × World
  write_cache_file w path file = elim (parent path) [
    | none ↦ (err (invalid (append "cache path has no parent: " path)), w)
    | some dir ↦
        let (r, w') = create_dir_all w dir in
        elim r [
          | err e ↦ (err (io "create cache directory" e), w')
          | ok _ ↦ write_file w' path (toml.to_string file)
        ]
  ]

  pub current_unix_ts : World → Result Error ℕ
  current_unix_ts w = ok_or (now w) clock

  pub load_cached_result :
      CacheConfig → String → FinalHostConfig → ℕ → World → Result Error (Option ProbeResult)
  load_cached_result c host_alias host port w = do
    file ← read_cache_file w c.path
    now ← current_unix_ts w
    ok (and_then (Maps.get host_alias file.entries) (fresh host port now))

  -- What the file is to hold.
  pub updated :
      CacheConfig → String → FinalHostConfig → ℕ → ProbeResult → World → Result Error CacheFile
  updated c host_alias host port result w = do
    file ← read_cache_file w c.path
    now ← current_unix_ts w
    ok (record { entries = Maps.insert host_alias (entry_of c host port result now) file.entries })

  pub store_cached_result :
      CacheConfig → String → FinalHostConfig → ℕ → ProbeResult → World → Result Error Unit × World
  store_cached_result c host_alias host port result w =
      elim (updated c host_alias host port result w) [
        | err e ↦ (err e, w)
        | ok file ↦ write_cache_file w c.path file
      ]
