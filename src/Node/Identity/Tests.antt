-- ===== src/Node/Identity/Tests.antt =====
-- A node that is set up in an empty directory of a small disk, and a second attempt.
use sshe.Prelude.{
  sym, ◌∙◌, inr, inl, ◌||◌, Bool, Bool-cases, subst, String, ℕ, List, Option, ok, err, ok_or,
  map_ok, is_some, some, none, [], ◌∷◌, ◌≡◌, str_eq, str_eq_iff, if◌then◌else◌, refl, ap, arith,
  false,
}
use sshe.Io.{IoError, ErrorKind}
use sshe.Node.Error.{Error}
use sshe.Node.Config.{resolved, Config, Paths, Toml, default_daemon}
use sshe.Core.Config.{default_probe}
use sshe.Node.Disk.{Disk, try, look, ◌>>=◌}
use sshe.Node.Layout.{Names}
use sshe.Node.Identity.{Keys, write_new, create_key, initialize, private_dir, init_new, init}
use sshe.Node.Identity.Kept.{Held, KeepsFiles, init-Held}
use sshe.Node.Identity.Initialized.{IsPlatform, IsNode, init-IsNode}

abbrev paths : Paths
paths = record {
  parent = λ p. some "/e";
  is_relative = λ p. str_eq p "config.key";
  join = λ base p. "/e/config.key";
  strip_prefix = λ p base. none;
}

abbrev names : Names
names = record {
  with_extension = λ p e. "/e/config.key";
  file_name = λ p. if str_eq p "/e/config.key" then some "config.key" else none;
  byte_length = λ p. 13;
}

abbrev node : String → Config
node identity = record {
  identity = identity;
  peers = [];
  probe = default_probe;
  daemon = default_daemon;
}

abbrev toml : Toml
toml = record {
  to_string_pretty = λ c. if str_eq c.identity "config.key" then some "config.key" else none;
  from_str = λ s. some (node s);
}

-- The files by their paths, with the content of the temporary file.
abbrev World : Type 0
World = (String → Option (List ℕ)) × List ℕ

abbrev failure : IoError
failure = record { kind = ErrorKind.other_kind; inner = none; text = "" }

abbrev content_of : World → String → Option (List ℕ)
content_of w p = if str_eq p "" then none else w.0 p

abbrev taken : World → String → Bool
taken w p = is_some (content_of w p) || str_eq p ""

-- the files with the temporary one at a free path
abbrev place : World → String → String → Option (List ℕ)
place w p q = if is_some (content_of w p) then w.0 q else if str_eq q p then some w.1 else w.0 q

abbrev disk : Disk
disk = record {
  World = World;
  Temp = Unit;
  exists = λ w p. is_some (content_of w p);
  mode = λ w p. map_ok (λ b. 384) (ok_or (content_of w p) failure);
  read_bytes = λ w p. ok_or (content_of w p) failure;
  read_to_string = λ w p. map_ok (λ b. "config.key") (ok_or (content_of w p) failure);
  as_bytes = λ s. 99 ∷ [];
  new_in = λ d w. (ok tt, w);
  write_all = λ t b w. (ok tt, (w.0, b));
  sync_all = λ t w. (ok tt, w);
  persist = λ t p w. (ok tt, ((λ q. if str_eq q p then some w.1 else w.0 q), w.1));
  persist_noclobber = λ t p w. ((if taken w p then err failure else ok tt), (place w p, w.1));
  temp_path = λ t. "";
  sync_dir = λ d w. (ok tt, w);
  create_dir_all = λ d w. (ok tt, w);
  set_permissions = λ d m w. (ok tt, w);
}

abbrev zeros : List ℕ
zeros =
    0 ∷ 0 ∷ 0 ∷ 0 ∷ 0 ∷ 0 ∷ 0 ∷ 0 ∷ 0 ∷ 0 ∷ 0 ∷ 0 ∷ 0 ∷ 0 ∷ 0 ∷ 0 ∷ 0 ∷ 0 ∷ 0 ∷ 0 ∷ 0 ∷ 0 ∷ 0 ∷ 0
    ∷ 0 ∷ 0 ∷ 0 ∷ 0 ∷ 0 ∷ 0 ∷ 0 ∷ 0 ∷ []

abbrev keys : Keys World
keys = record {
  SecretKey = Unit;
  generate = λ w. tt;
  to_bytes = λ k. zeros;
  from_bytes = λ b. tt;
  public = λ k. "id";
}

place_old :
    (w : World) (to path : String) (b : List ℕ)
    → content_of w path ≡ some b
    → content_of (place w to, w.1) path ≡ some b
place_old w to path b held = elim (Bool-cases (str_eq path to)) [
  | inl same ↦
      let there = subst (λ p. content_of w p ≡ some b) ((str_eq_iff path to).0 same) held in
      ground (arith, same, there, held)
  | inr other ↦ ground (arith, other, held)
]

place_new :
    (w : World) (to : String) → taken w to ≡ false → content_of (place w to, w.1) to ≡ some w.1
place_new w to free = ground (arith, free, str_eq_iff to to)

read-some :
    (w : World) (p : String) (b : List ℕ)
    → ok_or (content_of w p) failure ≡ ok b
    → content_of w p ≡ some b
read-some w p b h = ground (arith, h)

some-Held : (w : World) (p : String) (b : List ℕ) → content_of w p ≡ some b → Held disk w p 384 b
some-Held w p b h = ground (arith, h)

disk-KeepsFiles : KeepsFiles disk
disk-KeepsFiles = record {
  new_in-own = λ w d path bits bytes t held made same.
      absurd (ground (arith, subst (λ p. ok_or (content_of w p) failure ≡ ok bytes) same held.1));
  new_in-Held = λ w d path bits bytes held. held;
  write_all-Held = λ w t content path bits bytes own held. held;
  sync_all-Held = λ w t path bits bytes held. held;
  persist_noclobber-Held = λ w t to path bits bytes own held.
      ground (arith, held, place_old w to path bytes (read-some w path bytes held.1));
  sync_dir-Held = λ w d path bits bytes held. held;
  create_dir_all-Held = λ w d path bits bytes held. held;
  set_permissions-Held = λ w d set path bits bytes other held. held;
}

platform : IsPlatform paths names toml disk keys
unfolding resolved
platform = record {
  keeps = disk-KeepsFiles;
  created = λ w w₁ w₂ w₃ w₄ t parent path bytes e₁ e₂ e₃ e₄.
      let same = ap (λ p. p.1.1) e₂ ∙ ap (λ p. p.1.1) e₃ in
      subst (λ x. Held disk x path 384 bytes) (ap (λ p. p.1) e₄)
        (some-Held (place w₃ path, w₃.1) path bytes
          (place_new w₃ path (ground (arith, e₄)) ∙ ap some (sym same)));
  length-to_bytes = λ key. refl;
  from_bytes-to_bytes = λ key. refl;
  parsed = λ name content printed. ground (arith, printed, str_eq_iff name "config.key");
  text = λ name content w path printed held. ground (arith, printed, held);
  resolved-file_name = λ config name named.
      let is_key : "config.key" ≡ name = ground (arith, named) in
      subst (λ n. resolved paths config n ≡ "/e/config.key") is_key refl;
}

abbrev empty : World
empty = ((λ p. none), [])

abbrev after : World
after = (init paths names toml disk keys "/e/config.toml" empty).1

done : init paths names toml disk keys "/e/config.toml" empty ≡ (ok "id", after)
unfolding init init_new private_dir initialize create_key write_new try look ◌>>=◌
done = refl

refused :
    (init paths names toml disk keys "/e/config.toml" after).0
    ≡ err (Error.invalid "config already exists; refusing to overwrite")
unfolding init init_new private_dir initialize create_key write_new try look ◌>>=◌
refused = refl

init-IsNode_example : IsNode paths names toml disk keys "/e/config.toml" "id" after
init-IsNode_example =
    init-IsNode paths names toml disk keys platform "/e/config.toml" "id" empty after done

abbrev with_key : World
with_key = ((λ p. some zeros), [])

init-Held_example :
    Held disk
      (init paths names toml disk keys "/e/config.toml" with_key).1
      "/e/config.key"
      384
      zeros
init-Held_example =
    init-Held paths names toml disk keys disk-KeepsFiles "/e/config.key" 384 zeros "/e/config.toml"
      with_key (λ same. ground (arith, (str_eq_iff "/e/config.key" "/e").1 same)) (refl, refl)
