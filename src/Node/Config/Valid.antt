-- ===== src/Node/Config/Valid.antt =====
-- What `validate` accepts.
use Prim.Native.Char.{Char, code}
use Prim.Native.String as Text
use text.Mathlib.TextBridge.{IsPrefix}
use text.Mathlib.TextEquality.{starts_with_iff}
use sshe.Prelude.Maps
use sshe.Prelude.{
  inr, inl, Result-cases, ◌≢◌, str_eq_iff, ◌⊎◌, arith, length, ◌↔◌, true, ok, List, ◌≡◌, ◌≤◌,
  String, All, [], ◌∷◌,
}
use sshe.Node.Config.{
  all_alias_chars, checks, targets_of, validate_ranges, validate_aliases, validate_services,
  validate_alias, validate, Check, Config, Peer,
}

abbrev IsWithin : Check → Type 0
IsWithin k = (k.2 ≤ k.1) × (k.1 ≤ k.3)

-- an ASCII digit, a capital or a small letter, `_` or `-`
abbrev pub IsAliasChar : Char → Type 0
IsAliasChar c =
    ((48 ≤ code c) × (code c ≤ 57))
    ⊎ ((65 ≤ code c) × (code c ≤ 90))
    ⊎ ((97 ≤ code c) × (code c ≤ 122))
    ⊎ (code c ≡ 95)
    ⊎ (code c ≡ 45)

abbrev pub IsTyped : String → Type 0
IsTyped Text.[] = Unit
IsTyped (Text.◌∷◌ c s) = IsAliasChar c × IsTyped s

abbrev pub IsAlias : String → Type 0
IsAlias alias = (alias ≢ "self") × (alias ≢ "") × IsTyped alias

abbrev pub IsService : String → Type 0
IsService service = IsPrefix "tcp:" service ⊎ IsPrefix "systemd:" service

-- The aliases can be typed and none is `self`, no group has more than 16 checks, every limit is in
-- its range, and every service names a way to check it.
abbrev pub IsValid : Config → Type 0
IsValid c =
    All (λ e. IsAlias e.0) c.peers
    × (targets_of c.probe.wan ≤ 16)
    × (targets_of c.probe.lan ≤ 16)
    × (length c.probe.services ≤ 16)
    × ((1 ≤ c.probe.peer_timeout_secs) × (c.probe.peer_timeout_secs ≤ 45))
    × ((1 ≤ c.probe.timeout_secs) × (c.probe.timeout_secs ≤ 10))
    × ((5 ≤ c.daemon.interval_secs) × (c.daemon.interval_secs ≤ 3600))
    × ((1 ≤ c.daemon.history_size) × (c.daemon.history_size ≤ 1024))
    × ((1 ≤ c.daemon.max_concurrent) × (c.daemon.max_concurrent ≤ 256))
    × All (λ e. IsService e.1) c.probe.services

all_alias_chars_iff : (s : String) → (all_alias_chars s ≡ true) ↔ IsTyped s
unfolding all_alias_chars
all_alias_chars_iff Text.[] = ground arith
all_alias_chars_iff (Text.◌∷◌ c s) = ground (arith, all_alias_chars_iff s)

validate_alias_iff : (alias : String) → (validate_alias alias ≡ ok tt) ↔ IsAlias alias
unfolding validate_alias
validate_alias_iff alias =
    ground (arith, str_eq_iff alias "self", str_eq_iff alias "", all_alias_chars_iff alias)

validate_aliases_iff :
    (m : Maps.Map String Peer) → (validate_aliases m ≡ ok tt) ↔ All (λ e. IsAlias e.0) m
unfolding validate_aliases
validate_aliases_iff [] = ground arith
validate_aliases_iff ((alias, p) ∷ rest) =
    let own = validate_alias_iff alias in
    let others = validate_aliases_iff rest in
    elim (Result-cases (validate_alias alias)) [
      | inl (tt, fits) ↦
          rw (fits, validate_aliases) ((λ h. (own.0 fits, others.0 h)), λ v. others.1 v.1)
      | inr (e, refused) ↦
          rw (refused, validate_aliases)
            ((λ h. absurd (ground (arith, h))), λ v. absurd (ground (arith, refused, own.1 v.0)))
    ]

validate_ranges_iff : (ks : List Check) → (validate_ranges ks ≡ ok tt) ↔ All IsWithin ks
unfolding validate_ranges
validate_ranges_iff [] = ground arith
validate_ranges_iff ((name, value, first, last) ∷ rest) = ground (arith, validate_ranges_iff rest)

validate_services_iff :
    (m : Maps.Map String String) → (validate_services m ≡ ok tt) ↔ All (λ e. IsService e.1) m
unfolding validate_services
validate_services_iff [] = ground arith
validate_services_iff ((name, service) ∷ rest) = ground (
  arith,
  validate_services_iff rest,
  starts_with_iff service "tcp:",
  starts_with_iff service "systemd:",
)

-- `validate` accepts exactly the configurations whose aliases are letters, digits, `_` and `-`, not
-- empty and not `self`, whose groups have at most 16 checks, whose limits are in their ranges, and
-- whose services begin with `tcp:` or `systemd:`.
pub validate_iff : (c : Config) → (validate c ≡ ok tt) ↔ IsValid c
unfolding validate
validate_iff c = ground (
  arith,
  validate_aliases_iff c.peers,
  validate_ranges_iff (checks c),
  validate_services_iff c.probe.services,
)
