-- ===== src/Ssher/Cache/Stored.antt =====
-- What a stored result is found as, and what a result from the cache stands for.

use sshe.Prelude.Maps
use sshe.Prelude.Maps.{string_key}
use sshe.Prelude.{
  sym, ap, ◌∙◌, refl, ◌+◌, Result-cases, false, min, subst, and_then, inr, inl, ok_or, arith,
  Option-cases, >>=-eq-ok, ◌↔◌, str_eq, ok, String, true, some, any, ◌≡◌, ◌<◌, ℕ,
}
use sshe.Ssher.Config.{SelectionMode, CacheConfig, FinalHostConfig}
use sshe.Ssher.Cache.{
  u64_max, write_cache_file, entry_of, updated, current_unix_ts, read_cache_file,
  store_cached_result, load_cached_result, write_file, cache, CacheFile, Toml, ProbeResult,
  same_mode, Files, CacheEntry, fresh,
}
use sshe.Ssher.Error.{clock}
use mathlib.Core.Path.{◌∎, ◌≡⟨◌⟩◌}

-- An entry that may be used now: for this port and mode, not expired, and still configured.
abbrev pub IsFresh : FinalHostConfig → ℕ → ℕ → CacheEntry → Type 0
IsFresh host port now entry =
    (now < entry.expires_at_unix)
    × (entry.port ≡ port)
    × (entry.selection_mode ≡ host.selection_mode)
    × (any (λ endpoint. str_eq endpoint entry.endpoint) host.endpoints ≡ true)

same_mode_iff : (a b : SelectionMode) → (same_mode a b ≡ true) ↔ (a ≡ b)
same_mode_iff a b = ground arith

abbrev hit : CacheEntry → ProbeResult
hit entry = record { endpoint = entry.endpoint; latency_ms = entry.latency_ms; source = cache }

-- The tests on an entry, as a specification.
fresh_iff :
    (host : FinalHostConfig) (port now : ℕ) (entry : CacheEntry) (r : ProbeResult)
    → (fresh host port now entry ≡ some r) ↔ (IsFresh host port now entry × (r ≡ hit entry))
unfolding fresh
fresh_iff host port now entry r =
    ground (arith, same_mode_iff entry.selection_mode host.selection_mode)

module _ (files : Files) (toml : Toml CacheFile) where
  -- What the cache returns is the entry of that host in a file that was read, and may be used now.
  pub load_cached_result-IsFresh :
      (c : CacheConfig) (host_alias : String) (host : FinalHostConfig) (port : ℕ) (w : files.World)
      (r : ProbeResult)
      → load_cached_result files toml c host_alias host port w ≡ ok (some r)
      → (file : CacheFile) × (now : ℕ) × (entry : CacheEntry) × (read_cache_file files toml w c.path
          ≡ ok file)
        × (files.now w ≡ some now)
        × (Maps.get host_alias file.entries ≡ some entry)
        × IsFresh host port now entry
        × (r ≡ record { endpoint = entry.endpoint; latency_ms = entry.latency_ms; source = cache })
  unfolding load_cached_result current_unix_ts
  load_cached_result-IsFresh c host_alias host port w r h =
      let (file, h₁, e₁) = >>=-eq-ok _ (read_cache_file files toml w c.path) h in
      let (now, h₂, e₂) = >>=-eq-ok _ (ok_or (files.now w) clock) h₁ in
      let clock_read : files.now w ≡ some now = ground (arith, e₂) in
      let found : and_then (Maps.get host_alias file.entries) (fresh host port now) ≡ some r =
        ground (arith, h₂) in
      elim (Option-cases (Maps.get host_alias file.entries)) [
        | inl missing ↦ absurd (ground (arith, missing, found))
        | inr (entry, e) ↦
            let here : fresh host port now entry ≡ some r =
              subst (λ o. and_then o (fresh host port now) ≡ some r) e found in
            let spec = (fresh_iff host port now entry r).0 here in
            (file, now, entry, e₁, clock_read, e, spec.0, spec.1)
      ]

  -- A file that was written is read back, and its TOML text parses to it.
  pub record IsDisk : Type 0 where
    pub read-write :
        (w w' : files.World) (path content : String)
        → files.write w path content ≡ (ok tt, w')
        → files.read_to_string w' path ≡ ok content
    pub from_str-to_string :
        (file : CacheFile) (content : String)
        → toml.to_string file ≡ some content
        → toml.from_str content ≡ some file

  read_cache_file-write_file :
      IsDisk
      → (w w' : files.World) (path : String) (file : CacheFile)
      → write_file files toml w path (toml.to_string file) ≡ (ok tt, w')
      → read_cache_file files toml w' path ≡ ok file
  unfolding write_file read_cache_file
  read_cache_file-write_file disk w w' path file h = elim (Option-cases (toml.to_string file)) [
    | inl failed ↦ absurd (ground (arith, failed, h))
    | inr (content, e) ↦
        let written : files.write w path content ≡ (ok tt, w') = ground (arith, e, h) in
        rw (disk.read-write w w' path content written, read_cache_file)
          (ground (arith, disk.from_str-to_string file content e))
  ]

  read_cache_file-write_cache_file :
      IsDisk
      → (w w' : files.World) (path : String) (file : CacheFile)
      → write_cache_file files toml w path file ≡ (ok tt, w')
      → read_cache_file files toml w' path ≡ ok file
  unfolding write_cache_file
  read_cache_file-write_cache_file disk w w' path file h = elim (Option-cases (files.parent path)) [
    | inl missing ↦ absurd (ground (arith, missing, h))
    | inr (dir, e) ↦
        let made = files.create_dir_all w dir in
        elim (Result-cases made.0) [
          | inr (e₁, failed) ↦ absurd (ground (arith, e, failed, h))
          | inl (u, done) ↦
              read_cache_file-write_file disk made.1 w' path file (ground (arith, e, done, h))
        ]
  ]

  -- After a successful store the file holds the entry, and the others as they were.
  pub read_cache_file-store_cached_result :
      IsDisk
      → (c : CacheConfig) (host_alias : String) (host : FinalHostConfig) (port : ℕ)
        (result : ProbeResult) (w w' : files.World)
      → store_cached_result files toml c host_alias host port result w ≡ (ok tt, w')
      → (old : CacheFile) × (now : ℕ) × (read_cache_file files toml w c.path ≡ ok old)
        × (files.now w ≡ some now)
        × (read_cache_file files toml w' c.path
            ≡ ok (record {
              entries = Maps.insert host_alias (entry_of c host port result now) old.entries;
            }))
  unfolding store_cached_result updated current_unix_ts
  read_cache_file-store_cached_result disk c host_alias host port result w w' h =
      elim (Result-cases (updated files toml c host_alias host port result w)) [
        | inr (e, failed) ↦ absurd (ground (arith, failed, h))
        | inl (file, made) ↦
            let (old, h₁, e₁) = >>=-eq-ok _ (read_cache_file files toml w c.path) made in
            let (now, h₂, e₂) = >>=-eq-ok _ (ok_or (files.now w) clock) h₁ in
            let stored : read_cache_file files toml w' c.path ≡ ok file =
              read_cache_file-write_cache_file disk w w' c.path file (ground (arith, made, h)) in
            (old, now, e₁, ground (arith, e₂), ground (arith, stored, h₂))
      ]

  load_cached_result-ok :
      (c : CacheConfig) (host_alias : String) (host : FinalHostConfig) (port : ℕ) (w : files.World)
      (file : CacheFile) (t : ℕ)
      → read_cache_file files toml w c.path ≡ ok file
      → files.now w ≡ some t
      → load_cached_result files toml c host_alias host port w
        ≡ ok (and_then (Maps.get host_alias file.entries) (fresh host port t))
  unfolding load_cached_result current_unix_ts
  load_cached_result-ok c host_alias host port w file t read at = ground (arith, read, at)

  read_cache_file-eq :
      (w w' : files.World) (path : String)
      → files.read_to_string w path ≡ files.read_to_string w' path
      → read_cache_file files toml w path ≡ read_cache_file files toml w' path
  unfolding read_cache_file
  read_cache_file-eq w w' path h = rw (h, read_cache_file) refl

  -- A stored result is found again, by its own host, port and mode, until it expires: while the
  -- file stays as it was written and the endpoint is configured.
  pub load_cached_result-store_cached_result :
      IsDisk
      → (c : CacheConfig) (host_alias : String) (host : FinalHostConfig) (port : ℕ)
        (result : ProbeResult)
      → (w w' later : files.World) (t t' : ℕ)
      → store_cached_result files toml c host_alias host port result w ≡ (ok tt, w')
      → files.read_to_string later c.path ≡ files.read_to_string w' c.path
      → files.now w ≡ some t
      → files.now later ≡ some t'
      → t' < min (t + c.ttl_sec) u64_max
      → any (λ endpoint. str_eq endpoint result.endpoint) host.endpoints ≡ true
      → load_cached_result files toml c host_alias host port later
        ≡ ok (
            some (record {
              endpoint = result.endpoint;
              latency_ms = min result.latency_ms u64_max;
              source = cache;
            }))
  unfolding entry_of
  load_cached_result-store_cached_result disk c host_alias host port result w w' later t t' stored
        same at at' early known =
      let (old, now, e₁, e₂, e₃) =
        read_cache_file-store_cached_result disk c host_alias host port result w w' stored in
      let entry = entry_of c host port result now in
      let clock : now ≡ t = ground (arith, e₂, at) in
      let usable : fresh host port t' entry ≡ some (hit entry) =
        (fresh_iff host port t' entry (hit entry)).1
          ((omega (arith, clock, early), refl, refl, known), refl) in
      load_cached_result files toml c host_alias host port later
      ≡⟨ load_cached_result-ok c host_alias host port later _ t'
          (read_cache_file-eq later w' c.path same ∙ e₃) at' ⟩
        ok (
          and_then (Maps.get host_alias (Maps.insert host_alias entry old.entries))
            (fresh host port t'))
      ≡⟨ ap (λ o. ok (and_then o (fresh host port t')))
          (Maps.get-insert_self host_alias entry old.entries) ⟩
        ok (fresh host port t' entry)
      ≡⟨ ap ok usable ⟩ ok (some (hit entry)) ∎

  -- A store leaves what the other hosts find as it was, at the same time.
  load_cached_result-store_cached_result_ne :
      IsDisk
      → (c : CacheConfig) (host_alias other : String) (host other_host : FinalHostConfig)
        (port other_port : ℕ) (result : ProbeResult)
      → (w w' : files.World)
      → store_cached_result files toml c host_alias host port result w ≡ (ok tt, w')
      → Maps.same_key other host_alias ≡ false
      → files.now w' ≡ files.now w
      → load_cached_result files toml c other other_host other_port w'
        ≡ load_cached_result files toml c other other_host other_port w
  unfolding load_cached_result current_unix_ts
  load_cached_result-store_cached_result_ne disk c host_alias other host other_host port other_port
        result w w' stored ne at =
      let (old, now, e₁, e₂, e₃) =
        read_cache_file-store_cached_result disk c host_alias host port result w w' stored in
      let entry = entry_of c host port result now in
      load_cached_result files toml c other other_host other_port w'
      ≡⟨ load_cached_result-ok c other other_host other_port w' _ now e₃ (at ∙ e₂) ⟩
        ok (
          and_then (Maps.get other (Maps.insert host_alias entry old.entries))
            (fresh other_host other_port now))
      ≡⟨ ap (λ o. ok (and_then o (fresh other_host other_port now)))
          (Maps.get-insert_ne host_alias other entry old.entries ne) ⟩
        ok (and_then (Maps.get other old.entries) (fresh other_host other_port now))
      ≡⟨ sym (load_cached_result-ok c other other_host other_port w old now e₁ e₂) ⟩
        load_cached_result files toml c other other_host other_port w ∎
