-- ===== src/Node/Identity/Kept.antt =====
-- `init` leaves the files that are there alone.
use sshe.Prelude.{
  map_err-eq-ok, String, ℕ, List, Result, ok, ◌≡◌, ◌≢◌, inl, inr, Bool-cases, Option-cases,
}
use sshe.Node.Error.{Error}
use sshe.Node.Config.{Paths, Toml, dir}
use sshe.Node.Disk.{Disk, try, look, >>=-keeps, >>=-keeps_with}
use sshe.Node.Layout.{Names, layout}
use sshe.Node.Identity.{
  initial_text, identity_name, Keys, write_new, create_key, initialize, private_dir, init_new, init,
}

module _ (disk : Disk) where
  -- a file with these permissions and this content
  abbrev pub Held : disk.World → String → ℕ → List ℕ → Type 0
  Held w path bits bytes = (disk.mode w path ≡ ok bits) × (disk.read_bytes w path ≡ ok bytes)

  -- What a file system does to the files that are there, whether an operation fails or not: a
  -- temporary file is a new one, no file is replaced without clobbering, and only the permissions
  -- that are set are changed.
  pub record KeepsFiles : Type 0 where
    pub new_in-own :
        (w : disk.World) (d path : String) (bits : ℕ) (bytes : List ℕ) (t : disk.Temp)
        → Held w path bits bytes
        → (disk.new_in d w).0 ≡ ok t
        → path ≢ disk.temp_path t
    pub new_in-Held :
        (w : disk.World) (d path : String) (bits : ℕ) (bytes : List ℕ)
        → Held w path bits bytes
        → Held (disk.new_in d w).1 path bits bytes
    pub write_all-Held :
        (w : disk.World) (t : disk.Temp) (content : List ℕ) (path : String) (bits : ℕ)
        (bytes : List ℕ)
        → path ≢ disk.temp_path t
        → Held w path bits bytes
        → Held (disk.write_all t content w).1 path bits bytes
    pub sync_all-Held :
        (w : disk.World) (t : disk.Temp) (path : String) (bits : ℕ) (bytes : List ℕ)
        → Held w path bits bytes
        → Held (disk.sync_all t w).1 path bits bytes
    pub persist_noclobber-Held :
        (w : disk.World) (t : disk.Temp) (to path : String) (bits : ℕ) (bytes : List ℕ)
        → path ≢ disk.temp_path t
        → Held w path bits bytes
        → Held (disk.persist_noclobber t to w).1 path bits bytes
    pub sync_dir-Held :
        (w : disk.World) (d path : String) (bits : ℕ) (bytes : List ℕ)
        → Held w path bits bytes
        → Held (disk.sync_dir d w).1 path bits bytes
    pub create_dir_all-Held :
        (w : disk.World) (d path : String) (bits : ℕ) (bytes : List ℕ)
        → Held w path bits bytes
        → Held (disk.create_dir_all d w).1 path bits bytes
    pub set_permissions-Held :
        (w : disk.World) (d : String) (set : ℕ) (path : String) (bits : ℕ) (bytes : List ℕ)
        → path ≢ d
        → Held w path bits bytes
        → Held (disk.set_permissions d set w).1 path bits bytes

module _ (paths : Paths) (names : Names) (toml : Toml) (disk : Disk) (keys : Keys disk.World) where
  module _ (h : KeepsFiles disk) (path : String) (bits : ℕ) (bytes : List ℕ) where
    abbrev There : disk.World → Type 0
    There w = Held disk w path bits bytes

    pub write_new-Held :
        (parent to : String) (content : Result Error (List ℕ)) (w : disk.World)
        → There w
        → There (write_new paths names toml disk keys parent to content w).1
    unfolding write_new try look
    write_new-Held parent to content w there =
        >>=-keeps_with There (λ t. path ≢ disk.temp_path t) (try (disk.new_in parent)) _ w there
          (λ p. h.new_in-Held w parent path bits bytes p)
          (λ t p e. h.new_in-own w parent path bits bytes t p (map_err-eq-ok Error.io _ e))
          (λ t w₁ own p₁.
            >>=-keeps There (look (λ w. content)) _ (λ w p. p)
              (λ c.
                >>=-keeps There (try (disk.write_all t c)) _
                  (λ w p. h.write_all-Held w t c path bits bytes own p)
                  (λ u.
                    >>=-keeps There (try (disk.sync_all t)) _
                      (λ w p. h.sync_all-Held w t path bits bytes p)
                      (λ u w p. h.persist_noclobber-Held w t to path bits bytes own p)))
              w₁ p₁)

    pub initialize-Held :
        (identity : String) (w : disk.World)
        → There w
        → There (initialize paths names toml disk keys identity w).1
    unfolding initialize create_key look
    initialize-Held identity w there = elim (Option-cases (paths.parent identity)) [
      | inl lost ↦ rw (lost, initialize) there
      | inr (parent, found) ↦ elim (Bool-cases (disk.exists w identity)) [
        | inl old ↦ rw (found, initialize) (rw (old, initialize) there)
        | inr new ↦
            rw (found, initialize)
              (rw (new, initialize)
                (>>=-keeps There (look (λ w. ok (keys.generate w))) _ (λ w p. p)
                  (λ key.
                    >>=-keeps There
                      (write_new paths names toml disk keys parent identity
                        (ok (keys.to_bytes key)))
                      _ (write_new-Held parent identity (ok (keys.to_bytes key))) (λ u w p. p))
                  w there))
      ]
    ]

    private_dir-Held :
        (d : String) (w : disk.World)
        → path ≢ d
        → There w
        → There (private_dir paths names toml disk keys d w).1
    unfolding private_dir try
    private_dir-Held d w other there = elim (Bool-cases (disk.exists w d)) [
      | inl old ↦ rw old there
      | inr new ↦ rw new (
          >>=-keeps There (try (disk.create_dir_all d)) _
            (λ w p. h.create_dir_all-Held w d path bits bytes p)
            (λ u w p. h.set_permissions-Held w d 448 path bits bytes other p) w there)
    ]

    init_new-Held :
        (config : String) (w : disk.World)
        → path ≢ dir paths config
        → There w
        → There (init_new paths names toml disk keys config w).1
    unfolding init_new try look
    init_new-Held config w other there =
        >>=-keeps There (private_dir paths names toml disk keys (dir paths config)) _
          (λ w p. private_dir-Held (dir paths config) w other p)
          (λ u.
            >>=-keeps There
              (initialize paths names toml disk keys (layout names config).default_identity) _
              (initialize-Held _)
              (λ key.
                >>=-keeps There (look (λ w. identity_name paths names toml disk keys config)) _
                  (λ w p. p)
                  (λ name.
                    >>=-keeps There
                      (write_new paths names toml disk keys (dir paths config) config
                        (initial_text paths names toml disk keys name))
                      _ (write_new-Held _ _ _)
                      (λ u.
                        >>=-keeps There (try (disk.sync_dir (dir paths config))) _
                          (λ w p. h.sync_dir-Held w (dir paths config) path bits bytes p)
                          (λ u w p. p)))))
          w there

    -- Whatever `init` is asked for and however it ends, a file that was there before keeps its
    -- content and its permissions, an identity or a configuration among them; if the file system
    -- keeps files as `KeepsFiles` says, and the path is not that of the directory.
    pub init-Held :
        (config : String) (w : disk.World)
        → path ≢ dir paths config
        → Held disk w path bits bytes
        → Held disk (init paths names toml disk keys config w).1 path bits bytes
    unfolding init
    init-Held config w other there = elim (Bool-cases (disk.exists w config)) [
      | inl old ↦ rw old there
      | inr new ↦ rw new (init_new-Held config w other there)
    ]
