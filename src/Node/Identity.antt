-- ===== src/Node/Identity.antt =====
-- crates/sshe-node/src/identity.rs, and `init` of config.rs: the key of a node and the files that a
-- new node gets. iroh's keys are the parameter `Keys`.
pub mod Kept
pub mod Initialized
mod Tests
use sshe.Prelude.{
  String, Option, ℕ, Bool, List, Result, ok, err, ok_or, fail_if, map_err, map_ok, length, not,
  ◌==◌, ◌%◌, if◌then◌else◌, [], ◌∷◌, none, some,
}
use sshe.Core.Config.{default_probe}
use sshe.Node.Error.{Error, io, config_write, invalid}
use sshe.Node.Config.{Config, Paths, Toml, default_daemon, dir}
use sshe.Node.Disk.{Disk, Action, try, look, ◌>>=◌, ◌>>◌}
use sshe.Node.Layout.{identity_lock, Names, Layout, layout}
use sshe.Io.{IoError}

pub record Keys (World : Type 0) : Type 1 where
  pub SecretKey : Type 0
  -- the next key that is made
  pub generate : World → SecretKey
  pub to_bytes : SecretKey → List ℕ
  pub from_bytes : List ℕ → SecretKey
  -- `public`, an `EndpointId`
  pub public : SecretKey → String

module _ (paths : Paths) (names : Names) (toml : Toml) (disk : Disk) (keys : Keys disk.World) where
  open disk use {
    World, Temp, exists, mode, read_bytes, new_in, write_all, sync_all, persist_noclobber, sync_dir,
    create_dir_all, set_permissions,
  }
  open keys use {SecretKey, generate, to_bytes, from_bytes, public}

  -- the four steps that write a new file, and never replace one
  pub write_new : String → String → Result Error (List ℕ) → Action World Unit
  write_new parent path content = do
    file ← try (new_in parent)
    bytes ← look (λ w. content)
    try (write_all file bytes)
    try (sync_all file)
    try (persist_noclobber file path)

  key_of : Result Error (List ℕ) → Result Error SecretKey
  key_of (err e) = err e
  key_of (ok bytes) =
      if length bytes == 32
      then ok (from_bytes bytes)
      else err (invalid "invalid identity length; refusing to replace key")

  -- `mode() & 0o077 != 0` fails
  pub load_key : World → String → Result Error SecretKey
  load_key w path = elim (map_err io (mode w path)) [
    | err e ↦ err e
    | ok bits ↦
        if not (bits % 64 == 0)
        then err (invalid "identity must be private (chmod 600)")
        else key_of (map_err io (read_bytes w path))
  ]

  -- crates/sshe-node/src/lib.rs: this node's public identity
  unfoldable pub endpoint_id : Config → World → Result Error String
  endpoint_id config w = map_ok public (load_key w config.identity)

  create_key : String → String → Action World SecretKey
  create_key parent path = do
    key ← look (λ w. ok (generate w))
    write_new parent path (ok (to_bytes key))
    look (λ w. ok key)

  pub initialize : String → Action World SecretKey
  initialize path w = elim (paths.parent path) [
    | none ↦ (err (invalid "identity parent missing"), w)
    | some parent ↦
        let created = create_key parent path w in
        if exists w path then (load_key w path, w) else created
  ]

  private_dir : String → Action World Unit
  private_dir d w =
      let made = (do try (create_dir_all d); try (set_permissions d 448)) w in
      if exists w d then (ok tt, w) else made

  abbrev pub initial : String → Config
  initial identity = record {
    identity = identity;
    peers = [];
    probe = default_probe;
    daemon = default_daemon;
  }

  -- the name of the identity's file
  abbrev pub identity_name : String → Result Error String
  identity_name path =
      ok_or (names.file_name (layout names path).default_identity) (invalid "identity filename")

  abbrev pub initial_text : String → Result Error (List ℕ)
  initial_text name =
      map_ok disk.as_bytes (ok_or (toml.to_string_pretty (initial name)) config_write)

  pub init_new : String → Action World String
  init_new path = do
    private_dir (dir paths path)
    key ← initialize (layout names path).default_identity
    name ← look (λ w. identity_name path)
    write_new (dir paths path) path (initial_text name)
    try (sync_dir (dir paths path))
    look (λ w. ok (public key))

  pub init : String → Action World String
  init path w =
      let made = init_new path w in
      if exists w path
      then (err (invalid "config already exists; refusing to overwrite"), w)
      else made

-- The lock's file, opened with mode 600, and its `try_lock`.
module _ {World File : Type 0} (names : Names)
    (open_file : String → World → Result IoError File × World)
    (try_lock : File → World → Bool × World) where
  taken_lock : File → Action World File
  taken_lock file w =
      let (free, w') = try_lock file w in ((if free then ok file else err Error.identity_busy), w')

  pub lock : String → Action World File
  lock identity = do file ← try (open_file (identity_lock names identity)); taken_lock file
