-- ===== src/Node/Config/Tests.antt =====
-- A configuration that is saved and read back, and the bounds of `validate`.

use sshe.Prelude.Maps.{string_key}
use sshe.Prelude.{
  sym, ◌∙◌, ap, str_eq_iff, arith, refl, ◌↔◌, err, ok, ok_or, ◌≡◌, if◌then◌else◌, String, Option,
  str_eq, [], ◌∷◌, none, some,
}
use sshe.Io.{ErrorKind}
use sshe.Node.Config.{
  write_text, default_path, write_config, read, save, stored, out_of_range, validate_services,
  validate_ranges, all_alias_chars, validate_alias, default_daemon, validate_aliases, validate,
  Config, Paths, Toml, Files,
}
use sshe.Core.Config.{default_probe}
use sshe.Node.Error.{invalid}
use sshe.Node.Config.Valid.{validate_iff, IsValid}
use sshe.Node.Config.Saved.{read-save, IsFaithful}

abbrev node : String → Config
node identity = record {
  identity = identity;
  peers = ("vps-1", record { id = "k1"; addrs = [] }) ∷ [];
  probe = default_probe;
  daemon = default_daemon;
}

program : Unit {0}
unfolding validate validate_aliases validate_alias all_alias_chars validate_ranges validate_services
    out_of_range
program = tt

accepted : validate (node "/etc/sshe/id.key") ≡ ok tt
unfolding program
accepted = refl

reserved :
    validate (record (node "k") { peers = ("self", record { id = "k1"; addrs = [] }) ∷ [] })
    ≡ err (invalid "peer alias must contain letters, digits, _ or -; self is reserved")
unfolding program
reserved = refl

too_often :
    validate (record (node "k") { daemon = record default_daemon { interval_secs = 4 } })
    ≡ err (invalid "daemon.interval_secs must be in 5..=3600")
unfolding program sshe.Prelude.decimal
too_often = refl

-- Paths below /etc/sshe, one of which is printed: the identity's file name.
abbrev paths : Paths
paths = record {
  parent = λ p. some "/etc/sshe";
  is_relative = λ p. str_eq p "id.key";
  join = λ base p. if str_eq p "id.key" then "/etc/sshe/id.key" else p;
  strip_prefix = λ p base. if str_eq p "/etc/sshe/id.key" then some "id.key" else none;
}

-- The text of a configuration is its identity, and the rest is as above.
abbrev toml : Toml
toml = record { to_string_pretty = λ c. some c.identity; from_str = λ s. some (node s) }

abbrev disk : Files
disk = record {
  World = Option String;
  Temp = Unit;
  read_to_string =
      λ w path. ok_or w (record { kind = ErrorKind.not_found; inner = none; text = "" });
  new_in = λ w d. (ok tt, w);
  write_all = λ w t s. (ok tt, some s);
  sync_all = λ w t. (ok tt, w);
  persist = λ w t p. (ok tt, w);
  sync_dir = λ w d. (ok tt, w);
}

home_path :
    default_path (λ name. if str_eq name "HOME" then some "/home/u" else none)
    ≡ ok "/home/u/.config/sshe/config.toml"
unfolding default_path
home_path = refl

validate_iff_example : (validate (node "k") ≡ ok tt) ↔ IsValid (node "k")
validate_iff_example = validate_iff (node "k")

saved :
    save paths toml disk none "/etc/sshe/config.toml" (node "/etc/sshe/id.key")
    ≡ (ok tt, some "id.key")
unfolding save write_config write_text stored program
saved = refl

stripped :
    (path rest : String)
    → (if str_eq path "/etc/sshe/id.key" then some "id.key" else none) ≡ some rest
    → (rest ≡ "id.key") × (path ≡ "/etc/sshe/id.key")
stripped path rest h = ground (arith, str_eq_iff path "/etc/sshe/id.key")

disk-IsFaithful : IsFaithful paths toml disk
disk-IsFaithful = record {
  join-strip_prefix = λ base path rest h.
      let s = stripped path rest h in
      (ap paths.is_relative s.0, ap (paths.join base) s.0 ∙ sym s.1);
  read-persist = λ w w₁ w₂ w₃ w₄ w₅ t d path content a b c e f. ground arith;
}

read-save_example :
    read paths toml disk (some "id.key") "/etc/sshe/config.toml" ≡ ok (node "/etc/sshe/id.key")
unfolding stored
read-save_example =
    read-save paths toml disk disk-IsFaithful none (some "id.key") "/etc/sshe/config.toml"
      (node "/etc/sshe/id.key") refl (λ content h. ground arith) saved
