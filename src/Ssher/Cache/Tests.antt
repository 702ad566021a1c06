-- ===== src/Ssher/Cache/Tests.antt =====
-- A cache on a disk with one file. Its TOML text is reduced to the endpoint of the one entry that
-- the runs below write.
use sshe.Prelude.Maps
use sshe.Prelude.Maps.{string_key}
use sshe.Prelude.{
  refl, ◌==◌, ◌&&◌, str_eq, min, ok, if◌then◌else◌, ap, ok_or, str_eq_iff, ◌≡◌, Option, arith, some,
  none, String, ℕ, [], ◌∷◌,
}
use sshe.Io.{IoError, ErrorKind}
use sshe.Ssher.Cache.{
  entry_of, same_mode, fresh, current_unix_ts, u64_max, cache, write_file, write_cache_file,
  read_cache_file, CacheEntry, updated, probe, store_cached_result, ProbeResult, CacheFile,
  load_cached_result, Files, Toml,
}
use sshe.Ssher.Config.{lowest_tcp_latency, FinalHostConfig, CacheConfig}
use sshe.Ssher.Cache.Stored.{load_cached_result-store_cached_result, IsDisk}

abbrev pc_entry : String → CacheEntry
pc_entry endpoint = record {
  endpoint = endpoint;
  latency_ms = 5;
  expires_at_unix = 1300;
  port = 22;
  selection_mode = lowest_tcp_latency;
}

abbrev one_entry : Maps.Map String CacheEntry → Option String
one_entry [] = none
one_entry ((name, e) ∷ []) =
    if str_eq name "pc"
      && e.latency_ms == 5
      && e.expires_at_unix == 1300
      && e.port == 22
      && same_mode e.selection_mode lowest_tcp_latency
    then some e.endpoint
    else none
one_entry (_ ∷ _ ∷ _) = none

abbrev text : Toml CacheFile
text = record {
  to_string = λ f. one_entry f.entries;
  from_str = λ s. some (record { entries = ("pc", pc_entry s) ∷ [] });
}

abbrev missing : IoError
missing = record { kind = ErrorKind.not_found; inner = none; text = "no such file" }

-- The time and the content of the file.
abbrev disk : Files
disk = record {
  World = ℕ × Option String;
  now = λ w. some w.0;
  read_to_string = λ w path. ok_or w.1 missing;
  parent = λ path. some "/run";
  create_dir_all = λ w path. (ok tt, w);
  write = λ w path content. (ok tt, (w.0, some content));
}

one_entry-eq :
    (m : Maps.Map String CacheEntry) (s : String)
    → one_entry m ≡ some s
    → ("pc", pc_entry s) ∷ [] ≡ m
one_entry-eq [] s h = absurd (ground arith)
one_entry-eq ((name, e) ∷ []) s h = ground (arith, str_eq_iff name "pc")
one_entry-eq (x ∷ y ∷ m) s h = absurd (ground arith)

disk-IsDisk : IsDisk disk text
disk-IsDisk = record {
  read-write = λ w w' path content h. ground arith;
  from_str-to_string = λ file content h.
      ap (λ m. some (record { entries = m })) (one_entry-eq file.entries content h);
}

abbrev settings : CacheConfig
settings = record { ttl_sec = 300; path = "/run/cache.toml" }

abbrev pc : FinalHostConfig
pc = record {
  probe_timeout_ms = 500;
  selection_mode = lowest_tcp_latency;
  endpoints = "10.0.0.2" ∷ "pc.lan" ∷ [];
}

abbrev probed : ProbeResult
probed = record { endpoint = "pc.lan"; latency_ms = 5; source = probe }

program : Unit {0}
unfolding load_cached_result store_cached_result updated write_cache_file write_file read_cache_file
    current_unix_ts fresh entry_of Maps.get Maps.insert
program = tt

stored :
    store_cached_result disk text settings "pc" pc 22 probed (1000, none)
    ≡ (ok tt, (1000, some "pc.lan"))
unfolding program
stored = refl

expired : load_cached_result disk text settings "pc" pc 22 (1300, some "pc.lan") ≡ ok none
unfolding program
expired = refl

other_port : load_cached_result disk text settings "pc" pc 2222 (1299, some "pc.lan") ≡ ok none
unfolding program
other_port = refl

hit_at_once :
    load_cached_result disk text settings "pc" pc 22 (1000, some "pc.lan")
    ≡ ok (some (record probed { source = cache }))
unfolding program
hit_at_once = refl

load_cached_result-store_cached_result_example :
    load_cached_result disk text settings "pc" pc 22 (1299, some "pc.lan")
    ≡ ok (some (record { endpoint = "pc.lan"; latency_ms = min 5 u64_max; source = cache }))
load_cached_result-store_cached_result_example =
    load_cached_result-store_cached_result disk text disk-IsDisk settings "pc" pc 22 probed
      (1000, none) (1000, some "pc.lan") (1299, some "pc.lan") 1000 1299 stored refl refl refl
      (omega arith) refl
