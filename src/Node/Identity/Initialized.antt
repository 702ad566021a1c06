-- ===== src/Node/Identity/Initialized.antt =====
-- What `init` reports as done: a key that can be loaded and a configuration that can be read.
use sshe.Prelude.{
  map_ok, none, String, ℕ, List, Result, ok, err, some, ◌≡◌, ◌==◌, ◌%◌, ap, sym, ◌∙◌, refl, true,
  false, length, inl, inr, Bool-cases, Option-cases, Result-cases, arith, subst,
}
use sshe.Node.Error.{Error}
use sshe.Node.Config.{Paths, Toml, dir, read, resolved, validate}
use sshe.Node.Config.Saved.{read-ok}
use sshe.Node.Disk.{moved, look_then-ok, try_then-ok, Disk, look, files_of, >>=-ok, try-ok}
use sshe.Node.Layout.{Names}
use sshe.Node.Identity.{
  endpoint_id, Keys, write_new, create_key, initialize, private_dir, init_new, init, load_key,
  key_of, initial, initial_text, identity_name,
}
use sshe.Node.Identity.Kept.{Held, KeepsFiles, write_new-Held}
use sshe.Node.Config.Valid.{validate_iff}

module _ (paths : Paths) (names : Names) (toml : Toml) (disk : Disk) (keys : Keys disk.World) where
  -- What is relied on: a new file that was written, synced and put in place holds what was written,
  -- and only its owner can use it (mode 600); a key has 32 bytes and is made of them again; the
  -- text of a configuration is read as it was written and parses to it; and a file's name joins its
  -- directory to its path.
  pub record IsPlatform : Type 0 where
    pub keeps : KeepsFiles disk
    pub created :
        (w w₁ w₂ w₃ w₄ : disk.World) (t : disk.Temp) (parent path : String) (bytes : List ℕ)
        → disk.new_in parent w ≡ (ok t, w₁)
        → disk.write_all t bytes w₁ ≡ (ok tt, w₂)
        → disk.sync_all t w₂ ≡ (ok tt, w₃)
        → disk.persist_noclobber t path w₃ ≡ (ok tt, w₄)
        → Held disk w₄ path 384 bytes
    pub length-to_bytes : (key : keys.SecretKey) → length (keys.to_bytes key) ≡ 32
    pub from_bytes-to_bytes : (key : keys.SecretKey) → keys.from_bytes (keys.to_bytes key) ≡ key
    pub parsed :
        (name content : String)
        → toml.to_string_pretty (initial paths names toml disk keys name) ≡ some content
        → toml.from_str content ≡ some (initial paths names toml disk keys name)
    pub text :
        (name content : String) (w : disk.World) (path : String)
        → toml.to_string_pretty (initial paths names toml disk keys name) ≡ some content
        → Held disk w path 384 (disk.as_bytes content)
        → disk.read_to_string w path ≡ ok content
    pub resolved-file_name :
        (config name : String)
        → names.file_name (names.with_extension config "key") ≡ some name
        → resolved paths config name ≡ names.with_extension config "key"

  -- a private file with the bytes of a key
  abbrev HoldsKey : disk.World → String → keys.SecretKey → Type 0
  HoldsKey w path key =
      (bits : ℕ) × (bytes : List ℕ) × Held disk w path bits bytes
      × ((bits % 64 == 0) ≡ true)
      × ((length bytes == 32) ≡ true)
      × (keys.from_bytes bytes ≡ key)

  load_key-HoldsKey :
      (w : disk.World) (path : String) (key : keys.SecretKey)
      → HoldsKey w path key
      → load_key paths names toml disk keys w path ≡ ok key
  unfolding load_key key_of
  load_key-HoldsKey w path key (bits, bytes, (mode, content), private, long, same) =
      ground (arith, mode, content, private, long, same)

  loaded-HoldsKey :
      (w : disk.World) (path : String) (key : keys.SecretKey)
      → load_key paths names toml disk keys w path ≡ ok key
      → HoldsKey w path key
  unfolding load_key key_of
  loaded-HoldsKey w path key loaded = elim (Result-cases (disk.mode w path)) [
    | inr (e, failed) ↦ absurd (ground (arith, failed, loaded))
    | inl (bits, mode) ↦ elim (Result-cases (disk.read_bytes w path)) [
      | inr (e, failed) ↦ absurd (ground (arith, failed, mode, loaded))
      | inl (bytes, content) ↦ (
        bits,
        bytes,
        (mode, content),
        ground (arith, mode, content, loaded),
        ground (arith, mode, content, loaded),
        ground (arith, mode, content, loaded),
      )
    ]
  ]

  -- What a new node has: a configuration, and this identity by it.
  abbrev pub IsNode : String → String → disk.World → Type 0
  IsNode config id w =
      let identity = names.with_extension config "key" in
      (endpoint_id paths names toml disk keys (initial paths names toml disk keys identity) w
        ≡ ok id)
      × (read paths toml (files_of disk) w config
          ≡ ok (initial paths names toml disk keys identity))

  module _ (h : IsPlatform) where
    write_new-created :
        (parent path : String) (content : Result Error (List ℕ)) (w w' : disk.World)
        → write_new paths names toml disk keys parent path content w ≡ (ok tt, w')
        → (bytes : List ℕ) × (content ≡ ok bytes) × Held disk w' path 384 bytes
    unfolding write_new
    write_new-created parent path content w w' done =
        let (t, e₁, d₁) = try_then-ok (disk.new_in parent) _ w done in
        let w₁ = (disk.new_in parent w).1 in
        let (bytes, e, d) = look_then-ok (λ w. content) _ w₁ d₁ in
        let (_, e₂, d₂) = try_then-ok (disk.write_all t bytes) _ w₁ d in
        let w₂ = (disk.write_all t bytes w₁).1 in
        let (_, e₃, d₃) = try_then-ok (disk.sync_all t) _ w₂ d₂ in
        let w₃ = (disk.sync_all t w₂).1 in
        let e₄ = try-ok (disk.persist_noclobber t path) w₃ d₃ in
        (bytes, e, h.created w w₁ w₂ w₃ w' t parent path bytes e₁ e₂ e₃ e₄)

    create_key-HoldsKey :
        (parent path : String) (key : keys.SecretKey) (w w' : disk.World)
        → create_key paths names toml disk keys parent path w ≡ (ok key, w')
        → HoldsKey w' path key
    unfolding create_key look
    create_key-HoldsKey parent path key w w' done =
        let (made, e₁, d₁) = look_then-ok (λ w. ok (keys.generate w)) _ w done in
        let (_, e₂, d₂) =
          >>=-ok (write_new paths names toml disk keys parent path (ok (keys.to_bytes made))) _ w
            d₁ in
        let (bytes, e₃, held) = write_new-created parent path (ok (keys.to_bytes made)) w _ e₂ in
        let same : keys.to_bytes made ≡ bytes = ground (arith, e₃) in
        let loaded : HoldsKey _ path made = (
          384,
          bytes,
          held,
          refl,
          subst (λ b. (length b == 32) ≡ true) same (ap (λ n. n == 32) (h.length-to_bytes made)),
          ap keys.from_bytes (sym same) ∙ h.from_bytes-to_bytes made,
        ) in
        moved (λ k x. HoldsKey x path k) d₂ loaded

    initialize_old :
        (path parent : String) (w : disk.World)
        → paths.parent path ≡ some parent
        → disk.exists w path ≡ true
        → initialize paths names toml disk keys path w
          ≡ (load_key paths names toml disk keys w path, w)
    unfolding initialize
    initialize_old path parent w found old = rw (found, initialize) (rw (old, initialize) refl)

    initialize_new :
        (path parent : String) (w : disk.World)
        → paths.parent path ≡ some parent
        → disk.exists w path ≡ false
        → initialize paths names toml disk keys path w
          ≡ create_key paths names toml disk keys parent path w
    unfolding initialize
    initialize_new path parent w found new = rw (found, initialize) (rw (new, initialize) refl)

    initialize_lost :
        (path : String) (w : disk.World)
        → paths.parent path ≡ none
        → (initialize paths names toml disk keys path w).0
          ≡ err (Error.invalid "identity parent missing")
    unfolding initialize
    initialize_lost path w lost = rw (lost, initialize) refl

    initialize-HoldsKey :
        (path : String) (key : keys.SecretKey) (w w' : disk.World)
        → initialize paths names toml disk keys path w ≡ (ok key, w')
        → HoldsKey w' path key
    initialize-HoldsKey path key w w' done = elim (Option-cases (paths.parent path)) [
      | inl lost ↦ absurd (ground (arith, ap (λ p. p.0) done, initialize_lost path w lost))
      | inr (parent, found) ↦ elim (Bool-cases (disk.exists w path)) [
        | inl old ↦
            let loaded = sym (initialize_old path parent w found old) ∙ done in
            subst (λ x. HoldsKey x path key) (ap (λ p. p.1) loaded)
              (loaded-HoldsKey w path key (ap (λ p. p.0) loaded))
        | inr new ↦
            create_key-HoldsKey parent path key w w'
              (sym (initialize_new path parent w found new) ∙ done)
      ]
    ]

    HoldsKey-write_new :
        (path : String) (key : keys.SecretKey) (parent to : String)
        (content : Result Error (List ℕ)) (w : disk.World)
        → HoldsKey w path key
        → HoldsKey (write_new paths names toml disk keys parent to content w).1 path key
    HoldsKey-write_new path key parent to content w (bits, bytes, held, private, long, same) = (
      bits,
      bytes,
      write_new-Held paths names toml disk keys h.keeps path bits bytes parent to content w held,
      private,
      long,
      same,
    )

    HoldsKey-sync_dir :
        (path : String) (key : keys.SecretKey) (d : String) (w : disk.World)
        → HoldsKey w path key
        → HoldsKey (disk.sync_dir d w).1 path key
    HoldsKey-sync_dir path key d w (bits, bytes, held, private, long, same) =
        (bits, bytes, h.keeps.sync_dir-Held w d path bits bytes held, private, long, same)

    validate-initial : (name : String) → validate (initial paths names toml disk keys name) ≡ ok tt
    validate-initial name =
        (validate_iff (initial paths names toml disk keys name)).1 (ground arith)

    read-initial :
        (config name content : String) (w : disk.World)
        → names.file_name (names.with_extension config "key") ≡ some name
        → toml.to_string_pretty (initial paths names toml disk keys name) ≡ some content
        → Held disk w config 384 (disk.as_bytes content)
        → read paths toml (files_of disk) w config
          ≡ ok (initial paths names toml disk keys (names.with_extension config "key"))
    read-initial config name content w named printed held =
        read-ok paths toml (files_of disk) w config content _
          (h.text name content w config printed held) (h.parsed name content printed)
          (validate-initial name)
        ∙ ap (λ i. ok (initial paths names toml disk keys i))
            (h.resolved-file_name config name named)

    initial_text-ok :
        (name : String) (bytes : List ℕ)
        → initial_text paths names toml disk keys name ≡ ok bytes
        → (content : String) × (toml.to_string_pretty (initial paths names toml disk keys name)
            ≡ some content)
          × (disk.as_bytes content ≡ bytes)
    initial_text-ok name bytes made =
        elim (Option-cases (toml.to_string_pretty (initial paths names toml disk keys name))) [
          | inl lost ↦ absurd (ground (arith, lost, made))
          | inr (content, printed) ↦ (content, printed, ground (arith, printed, made))
        ]

    identified :
        (w : disk.World) (identity : String) (key : keys.SecretKey)
        → load_key paths names toml disk keys w identity ≡ ok key
        → endpoint_id paths names toml disk keys (initial paths names toml disk keys identity) w
          ≡ ok (keys.public key)
    unfolding endpoint_id
    identified w identity key loads = ap (map_ok keys.public) loads

    init_new-IsNode :
        (config id : String) (w w' : disk.World)
        → init_new paths names toml disk keys config w ≡ (ok id, w')
        → IsNode config id w'
    unfolding init_new look
    init_new-IsNode config id w w' done =
        let parent = dir paths config in
        let identity = names.with_extension config "key" in
        let (_, e₁, d₁) = >>=-ok (private_dir paths names toml disk keys parent) _ w done in
        let w₁ = (private_dir paths names toml disk keys parent w).1 in
        let (key, e₂, d₂) = >>=-ok (initialize paths names toml disk keys identity) _ w₁ d₁ in
        let w₂ = (initialize paths names toml disk keys identity w₁).1 in
        let (name, named, d₃) =
          look_then-ok (λ w. identity_name paths names toml disk keys config) _ w₂ d₂ in
        let (_, e₄, d₄) =
          >>=-ok
            (write_new paths names toml disk keys parent config
              (initial_text paths names toml disk keys name))
            _ w₂ d₃ in
        let w₃ =
          (write_new paths names toml disk keys parent config
            (initial_text paths names toml disk keys name) w₂).1 in
        let (bytes, made, held) =
          write_new-created parent config (initial_text paths names toml disk keys name) w₂ w₃ e₄ in
        let (content, printed, same) = initial_text-ok name bytes made in
        let (_, e₅, d₅) = try_then-ok (disk.sync_dir parent) _ w₃ d₄ in
        let w₄ = (disk.sync_dir parent w₃).1 in
        let key_there : HoldsKey w₄ identity key = HoldsKey-sync_dir identity key parent w₃ (
          HoldsKey-write_new identity key parent config _ w₂
            (initialize-HoldsKey identity key w₁ w₂ e₂)) in
        let text_there : Held disk w₄ config 384 (disk.as_bytes content) =
          subst (λ b. Held disk w₄ config 384 b) (sym same)
            (h.keeps.sync_dir-Held w₃ parent config 384 bytes held) in
        moved (IsNode config) d₅ (
          identified w₄ identity key (load_key-HoldsKey w₄ identity key key_there),
          read-initial config name content w₄ (ground (arith, named)) printed text_there,
        )

    init_taken :
        (config : String) (w : disk.World)
        → disk.exists w config ≡ true
        → (init paths names toml disk keys config w).0
          ≡ err (Error.invalid "config already exists; refusing to overwrite")
    unfolding init
    init_taken config w old = rw old refl

    init_free :
        (config : String) (w : disk.World)
        → disk.exists w config ≡ false
        → init paths names toml disk keys config w ≡ init_new paths names toml disk keys config w
    unfolding init
    init_free config w new = rw new refl

    -- When `init` reports a public key, the configuration's file reads back as the initial
    -- configuration, and `endpoint_id` loads the identity of that configuration and has the same
    -- public key; if the platform does what `IsPlatform` says.
    pub init-IsNode :
        (config id : String) (w w' : disk.World)
        → init paths names toml disk keys config w ≡ (ok id, w')
        → IsNode config id w'
    init-IsNode config id w w' done = elim (Bool-cases (disk.exists w config)) [
      | inl old ↦ absurd (ground (arith, ap (λ p. p.0) done, init_taken config w old))
      | inr new ↦ init_new-IsNode config id w w' (sym (init_free config w new) ∙ done)
    ]
