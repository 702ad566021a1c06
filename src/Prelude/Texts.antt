-- ===== src/Prelude/Texts.antt =====
-- The functions of `str` and `Path` that the program calls, on native texts.
use Prim.Native.Char.{Char, code}
use Prim.Native.Nat.{ℕ, zero, suc, ◌+◌, ◌-◌, ◌/◌, ◌%◌, ◌<◌, ◌≤◌, ◌^◌}
use mathlib.Core.Path.{◌≡◌, refl, ap}
use native.Mathlib.Omega.{arith}
use Prim.Native.String as Text
use Prim.Native.String.{String, len, slice, ◌++◌, ◌∷◌}
use mathlib.Core.Bool.{Bool, ◌&&◌, ◌||◌}
use mathlib.Core.Option.{Option, none, some}
use text.Mathlib.Text.{starts_with, ◌==◌ as str_eq}
use mathlib.Core.Logic.{inl, inr}
use mathlib.Core.Bool.{true}
use sshe.Prelude.Tests.{Bool-cases, leb, ltb, ◌==◌, if◌then◌else◌}

-- `str::strip_prefix`
abbrev pub strip_prefix : String → String → Option String
strip_prefix p s = if starts_with s p then some (slice s (len p) (len s)) else none

-- `char::is_whitespace`
abbrev pub is_white : Char → Bool
is_white c =
    let n = code c in
    (leb 9 n && leb n 13)
    || n == 32
    || n == 133
    || n == 160
    || n == 5760
    || (leb 8192 n && leb n 8202)
    || n == 8232
    || n == 8233
    || n == 8239
    || n == 8287
    || n == 12288

unfoldable pub trim_start : String → String
trim_start Text.[] = ""
trim_start (c ∷ s) = let rest = trim_start s in if is_white c then rest else c ∷ s

unfoldable pub trim_end : String → String
trim_end Text.[] = ""
trim_end (c ∷ s) = let rest = trim_end s in if is_white c && str_eq rest "" then "" else c ∷ rest

-- `str::trim`
abbrev pub trim : String → String
trim s = trim_end (trim_start s)

-- `Path::join`
abbrev pub join : String → String → String
join base path =
    if starts_with path "/"
    then path
    else if str_eq base "" || str_eq (slice base (len base - 1) (len base)) "/"
    then base ++ path
    else base ++ "/" ++ path

digits : ℕ → ℕ → String
digits zero n = ""
digits (suc fuel) n =
    let last = n % 10 in
    let higher = digits fuel (n / 10) in
    (if ltb n 10 then "" else higher) ++ slice "0123456789" last (last + 1)

-- More fuel than the number has digits changes nothing.
digits_enough :
    (fuel more n : ℕ) → fuel ≤ more → n < 10 ^ suc fuel → digits (suc more) n ≡ digits (suc fuel) n
unfolding digits
digits_enough zero more n le few =
    let small : ltb n 10 ≡ true = ground (arith, few) in rw small refl
digits_enough (suc fuel) zero n le few = absurd (omega (arith, le))
digits_enough (suc fuel) (suc more) n le few = elim (Bool-cases (ltb n 10)) [
  | inl small ↦ rw small refl
  | inr large ↦ rw large (
      ap (λ h. h ++ slice "0123456789" (n % 10) (n % 10 + 1))
        (digits_enough fuel more (n / 10) (omega (arith, le)) (omega (arith, few))))
]

-- `to_string` of a u64, which has at most 20 digits
unfoldable pub decimal : ℕ → String
unfolding digits
decimal n = digits 20 n

-- The fuel is enough for a u64: more of it gives the same text.
decimal_enough : (more n : ℕ) → 19 ≤ more → n < 2 ^ 64 → digits (suc more) n ≡ decimal n
unfolding decimal
decimal_enough more n le few = digits_enough 19 more n le (omega (arith, few))
