-- ===== src/Node/Config/Saved.antt =====
-- Reading a configuration back.

use sshe.Prelude.{
  none, Option, ok_or, map_err, ◌∙◌, >>=-eq-ok, Result-cases, refl, inr, subst, ap, inl, arith,
  Option-cases, err, true, false, ok, ◌≡◌, Result, String, some,
}
use sshe.Io.{IoError}
use sshe.Node.Config.{
  dir, validate, step, read, stored, resolved, save, write_config, write_text, Config, Paths, Toml,
  Files,
}
use sshe.Node.Error.{config_write, Error, io, config_read}

-- The identity is not validated.
validate-identity : (c : Config) (i : String) → validate (record c { identity = i }) ≡ validate c
unfolding validate
validate-identity c i = refl

module _ (paths : Paths) (toml : Toml) (files : Files) where
  -- A path that was stripped of a directory is relative and joins it again; a file that was
  -- written, synced and renamed in a synced directory is there.
  pub record IsFaithful : Type 0 where
    pub join-strip_prefix :
        (base path rest : String)
        → paths.strip_prefix path base ≡ some rest
        → (paths.is_relative rest ≡ true) × (paths.join base rest ≡ path)
    pub read-persist :
        (w w₁ w₂ w₃ w₄ w₅ : files.World) (t : files.Temp) (dir path content : String)
        → files.new_in w dir ≡ (ok t, w₁)
        → files.write_all w₁ t content ≡ (ok tt, w₂)
        → files.sync_all w₂ t ≡ (ok tt, w₃)
        → files.persist w₃ t path ≡ (ok tt, w₄)
        → files.sync_dir w₄ dir ≡ (ok tt, w₅)
        → files.read_to_string w₅ path ≡ ok content

  resolved-stored :
      IsFaithful
      → (path identity : String) → paths.is_relative identity ≡ false
      → resolved paths path (stored paths path identity) ≡ identity
  unfolding resolved stored
  resolved-stored h path identity absolute =
      elim (Option-cases (paths.strip_prefix identity (dir paths path))) [
        | inl away ↦ ground (arith, away, absolute)
        | inr (rest, e) ↦ ground (arith, e, h.join-strip_prefix (dir paths path) identity rest e)
      ]

  -- The steps that led to a success.
  step-ok :
      {A : Type 0} (made : Result IoError A × files.World)
      (f : A → files.World → Result Error Unit × files.World) {w : files.World}
      → step paths toml files made f ≡ (ok tt, w)
      → (a : A) × (made ≡ (ok a, made.1)) × (f a made.1 ≡ (ok tt, w))
  step-ok (ok a, w') f h = (a, refl, h)
  step-ok (err e, w') f h = absurd (ground arith)

  read_to_string-write_text :
      IsFaithful
      → (w w₁ w' : files.World) (path content : String) (t : files.Temp)
      → files.new_in w (dir paths path) ≡ (ok t, w₁)
      → write_text paths toml files w₁ path t content ≡ (ok tt, w')
      → files.read_to_string w' path ≡ ok content
  unfolding write_text
  read_to_string-write_text h w w₁ w' path content t e₁ h₁ =
      let (_, e₂, h₂) = step-ok (files.write_all w₁ t content) _ h₁ in
      let w₂ = (files.write_all w₁ t content).1 in
      let (_, e₃, h₃) = step-ok (files.sync_all w₂ t) _ h₂ in
      let w₃ = (files.sync_all w₂ t).1 in
      let (_, e₄, h₄) = step-ok (files.persist w₃ t path) _ h₃ in
      let w₄ = (files.persist w₃ t path).1 in
      let (_, e₅, h₅) = step-ok (files.sync_dir w₄ (dir paths path)) _ h₄ in
      let w₅ = (files.sync_dir w₄ (dir paths path)).1 in
      let same : w₅ ≡ w' = ap (λ p. p.1) h₅ in
      subst (λ x. files.read_to_string x path ≡ ok content) same
        (h.read-persist w w₁ w₂ w₃ w₄ w₅ t (dir paths path) path content e₁ e₂ e₃ e₄ e₅)

  -- what `write_config` does with the text
  abbrev with_text :
      String → files.Temp → files.World → Option String → Result Error Unit × files.World
  with_text path t w o = elim o [
    | none ↦ (err config_write, w)
    | some content ↦ write_text paths toml files w path t content
  ]

  with_text-ok :
      (path : String) (t : files.Temp) (w : files.World) (o : Option String) {w' : files.World}
      → with_text path t w o ≡ (ok tt, w')
      → (content : String) × (o ≡ some content)
        × (write_text paths toml files w path t content ≡ (ok tt, w'))
  with_text-ok path t w none h = absurd (ground (arith, h))
  with_text-ok path t w (some content) h = (content, refl, h)

  read_to_string-write_config :
      IsFaithful
      → (w w' : files.World) (path : String) (kept : Config)
      → write_config paths toml files w path kept ≡ (ok tt, w')
      → (content : String) × (toml.to_string_pretty kept ≡ some content)
        × (files.read_to_string w' path ≡ ok content)
  unfolding write_config
  read_to_string-write_config h w w' path kept done =
      let (t, made, h₁) = step-ok (files.new_in w (dir paths path)) _ done in
      let w₁ = (files.new_in w (dir paths path)).1 in
      let (content, text, h₂) = with_text-ok path t w₁ (toml.to_string_pretty kept) h₁ in
      (content, text, read_to_string-write_text h w w₁ w' path content t made h₂)

  pub read-ok :
      (w : files.World) (path content : String) (c : Config)
      → files.read_to_string w path ≡ ok content
      → toml.from_str content ≡ some c
      → validate c ≡ ok tt
      → read paths toml files w path ≡ ok (record c { identity = resolved paths path c.identity })
  unfolding read
  read-ok w path content c there parsed valid = ground (arith, there, parsed, valid)

  -- The identity of a configuration that was read is resolved.
  pub read-identity :
      (w : files.World) (path : String) (cfg : Config)
      → read paths toml files w path ≡ ok cfg
      → (identity : String) × (resolved paths path identity ≡ cfg.identity)
  unfolding read
  read-identity w path cfg h =
      let (content, h₁, there) = >>=-eq-ok _ (map_err io (files.read_to_string w path)) h in
      let (config, h₂, parsed) = >>=-eq-ok _ (ok_or (toml.from_str content) config_read) h₁ in
      let (_, h₃, valid) = >>=-eq-ok _ (validate config) h₂ in
      (config.identity, ap (λ r. elim r as (λ _. String) [ ok c ↦ c.identity | err e ↦ "" ]) h₃)

  -- The TOML text of what is saved parses to it.
  abbrev pub PrintsBack : String → Config → Type 0
  PrintsBack path c =
      let kept = record c { identity = stored paths path c.identity } in
      (content : String)
      → toml.to_string_pretty kept ≡ some content
      → toml.from_str content ≡ some kept

  -- A configuration that `save` reports as saved is what `read` returns, if its TOML text parses
  -- to it and its identity is an absolute path, inside the configuration's directory or not.
  pub read-save :
      IsFaithful
      → (w w' : files.World) (path : String) (c : Config) → paths.is_relative c.identity ≡ false
      → PrintsBack path c
      → save paths toml files w path c ≡ (ok tt, w')
      → read paths toml files w' path ≡ ok c
  unfolding save
  read-save h w w' path c absolute prints saved =
      let kept = record c { identity = stored paths path c.identity } in
      elim (Result-cases (validate c)) [
        | inr (e, failed) ↦ absurd (ground (arith, failed, saved))
        | inl (u, valid) ↦
            let (content, text, there) =
              read_to_string-write_config h w w' path kept (ground (arith, valid, saved)) in
            let valid_kept : validate kept ≡ ok tt =
              validate-identity c (stored paths path c.identity) ∙ valid in
            read-ok w' path content kept there (prints content text) valid_kept
            ∙ ap (λ i. ok (record c { identity = i })) (resolved-stored h path c.identity absolute)
      ]
