-- ===== src/Prelude/Maps.antt =====
-- `BTreeMap`: entries in the order of their keys. A key is compared by a three-way `cmp`.
use Prim.Native.Nat.{Ordering}
use Prim.Native.String.{String, compare}
use mathlib.Core.Path.{◌≡◌, ap, subst}
use mathlib.Core.Logic.{inl, inr}
use mathlib.Core.Bool.{Bool, true, false}
use mathlib.Core.List.{List, [], ◌∷◌, map}
use mathlib.Core.Option.{Option, none, some}
use native.Mathlib.Omega.{arith}
use text.Mathlib.Text.{is_eq}
use text.Mathlib.TextEquality.{path_by_compare}
use text.Mathlib.TextPositions.{eq_refl}
use mathlib.Core.Logic.{inl, inr}
use sshe.Prelude.Tests.{if◌then◌else◌, Bool-cases}
use sshe.Prelude.Lists.{All}

-- Rust's `Ord` on a key type, as far as a map relies on it: `Equal` is equality.
pub record Key {ℓ} (K : Type ℓ) : Type ℓ where
  pub cmp : K → K → Ordering
  pub eq_sound : (a b : K) → cmp a b ≡ Ordering.eq → a ≡ b
  pub eq_self : (a : K) → cmp a a ≡ Ordering.eq

pub compare_self : (s : String) → compare s s ≡ Ordering.eq
compare_self s = ground (arith, eq_refl s)

instance abbrev pub string_key : Key String
string_key = record { cmp = compare; eq_sound = path_by_compare; eq_self = compare_self }

abbrev pub Map {ℓ} : Type ℓ → Type ℓ → Type ℓ
Map K V = List (K × V)

module _ {ℓ} {K : Type ℓ} ⦃key : Key K⦄ where
  -- `a == b`
  abbrev pub same_key : K → K → Bool
  same_key a b = is_eq (key.cmp a b)

  pub same_key_self : (k : K) → same_key k k ≡ true
  same_key_self k = ap is_eq (key.eq_self k)

  pub same_key→eq : (a b : K) → same_key a b ≡ true → a ≡ b
  same_key→eq a b h = key.eq_sound a b (ground arith)

module _ {ℓ} {K V : Type ℓ} ⦃key : Key K⦄ where
  unfoldable pub get : K → Map K V → Option V
  get k [] = none
  get k ((j, v) ∷ m) = if same_key k j then some v else get k m

  -- Writes at the key's place in the order; an entry with the key is replaced.
  unfoldable pub insert : K → V → Map K V → Map K V
  insert k v [] = (k, v) ∷ []
  insert k v ((j, w) ∷ m) = elim (key.cmp k j) [
    | Ordering.lt ↦ (k, v) ∷ (j, w) ∷ m
    | Ordering.eq ↦ (k, v) ∷ m
    | Ordering.gt ↦ (j, w) ∷ insert k v m
  ]

  unfoldable pub remove : K → Map K V → Map K V
  remove k [] = []
  remove k ((j, v) ∷ m) = if same_key k j then remove k m else (j, v) ∷ remove k m

  abbrev pub keys : Map K V → List K
  keys = map (λ e. e.0)

  abbrev pub values : Map K V → List V
  values = map (λ e. e.1)

  pub get-insert_self : (k : K) (v : V) (m : Map K V) → get k (insert k v m) ≡ some v
  unfolding get insert
  get-insert_self k v [] = ground (arith, same_key_self k)
  get-insert_self k v ((j, w) ∷ m) = ground (arith, same_key_self k, get-insert_self k v m)

  pub get-insert_ne :
      (k j : K) (v : V) (m : Map K V) → same_key j k ≡ false → get j (insert k v m) ≡ get j m
  unfolding get insert
  get-insert_ne k j v [] h = ground arith
  get-insert_ne k j v ((i, w) ∷ m) h = ground (arith, key.eq_sound k i, get-insert_ne k j v m h)

  -- A read after a write, at any key.
  pub get-insert :
      (k j : K) (v : V) (m : Map K V)
      → get j (insert k v m) ≡ (if same_key j k then some v else get j m)
  get-insert k j v m = elim (Bool-cases (same_key j k)) [
    | inl here ↦ ground (arith, get-insert_self k v m, same_key→eq j k here)
    | inr away ↦ rw away (get-insert_ne k j v m away)
  ]

  pub get-remove :
      (k j : K) (m : Map K V) → get j (remove k m) ≡ (if same_key j k then none else get j m)
  unfolding get remove
  get-remove k j [] = ground arith
  get-remove k j ((i, w) ∷ m) =
      ground (
        arith,
        get-remove k j m,
        key.eq_sound k i,
        key.eq_sound j i,
        key.eq_sound j k,
        key.eq_self j,
      )

  -- A property of entries that an inserted entry has too.
  pub All-insert {κ} :
      (P : K × V → Type κ) (k : K) (v : V) (m : Map K V) → P (k, v) → All P m → All P (insert k v m)
  unfolding insert
  All-insert P k v [] h hs = (h, tt)
  All-insert P k v ((j, w) ∷ m) h hs = ground (arith, All-insert P k v m h hs.1)

  pub All-get {κ} :
      (P : K × V → Type κ) (k : K) (v : V) (m : Map K V) → All P m → get k m ≡ some v → P (k, v)
  unfolding get
  All-get P k v [] hs h = absurd (ground arith)
  All-get P k v ((j, w) ∷ m) hs h = elim (Bool-cases (same_key k j)) [
    | inl here ↦ subst P (ground (arith, same_key→eq k j here)) hs.0
    | inr away ↦ All-get P k v m hs.1 (ground arith)
  ]

pub ruleset map_laws = (get-insert, get-remove)
