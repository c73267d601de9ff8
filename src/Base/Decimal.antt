-- ===== src/Base/Decimal.antt =====
-- Numbers as Rust prints them (`{}` of an unsigned integer), and texts cut at a character.
use Prim.Native.Nat.{ℕ, zero, suc, ◌+◌, ◌/◌, ◌%◌}
use mathlib.Core.Path.{◌≡◌, refl}
use mathlib.Core.Bool.{Bool, true, false}
use mathlib.Core.List.{List, [], ◌∷◌, ◌++◌}
use native.Mathlib.Omega.{arith}
use uswarm_unitctl.Base.Tests.{ltb, ◌==◌, if◌then◌else◌}
use uswarm_unitctl.Base.Lists.{all, all-append}
use uswarm_unitctl.Base.Strings.{Text}

-- The digits of `n`; the fuel is above the number of digits.
unfoldable pub decimal_fuel : ℕ → ℕ → Text
decimal_fuel zero n = []
decimal_fuel (suc fuel) n =
    let rest = decimal_fuel fuel (n / 10) ++ (48 + n % 10) ∷ [] in
    if ltb n 10 then (48 + n) ∷ [] else rest

unfoldable pub decimal : ℕ → Text
unfolding decimal_fuel
decimal n = decimal_fuel (suc n) n

abbrev pub is_digit : ℕ → Bool
is_digit c = if ltb c 48 then false else ltb c 58

decimal_fuel-digits : (fuel n : ℕ) → all is_digit (decimal_fuel fuel n) ≡ true
unfolding decimal_fuel
decimal_fuel-digits zero n = refl
decimal_fuel-digits (suc fuel) n = ground (
  arith,
  decimal_fuel-digits fuel (n / 10),
  all-append is_digit (decimal_fuel fuel (n / 10)) ((48 + n % 10) ∷ []),
)

-- A printed number has only digits.
pub decimal-digits : (n : ℕ) → all is_digit (decimal n) ≡ true
unfolding decimal
decimal-digits n = decimal_fuel-digits (suc n) n

-- `s.split(c)`: the pieces between the occurrences of `c`, one more than there are occurrences.
abbrev push_front : ℕ → List Text → List Text
push_front c [] = (c ∷ []) ∷ []
push_front c (w ∷ ws) = (c ∷ w) ∷ ws

unfoldable pub split : ℕ → Text → List Text
split sep [] = [] ∷ []
split sep (c ∷ s) = let rest = split sep s in if c == sep then [] ∷ rest else push_front c rest

-- The characters of `s` all differ from `c`.
abbrev pub is_free_of : ℕ → Text → Bool
is_free_of c s = all (λ d. if d == c then false else true) s

pub split-append :
    (sep : ℕ) (w s : Text) → is_free_of sep w ≡ true → split sep (w ++ sep ∷ s) ≡ w ∷ split sep s
unfolding split
split-append sep [] s h = ground arith
split-append sep (c ∷ w) s h = ground (arith, split-append sep w s)

pub split_whole : (sep : ℕ) (w : Text) → is_free_of sep w ≡ true → split sep w ≡ w ∷ []
unfolding split
split_whole sep [] h = refl
split_whole sep (c ∷ w) h = ground (arith, split_whole sep w)

pub free_of_digits :
    (c : ℕ) (s : Text) → is_digit c ≡ false → all is_digit s ≡ true → is_free_of c s ≡ true
free_of_digits c [] h k = refl
free_of_digits c (d ∷ s) h k = ground (arith, free_of_digits c s)
