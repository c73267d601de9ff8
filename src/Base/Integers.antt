-- ===== src/Base/Integers.antt =====
-- The integers as the program's `i32`, how Rust prints and parses them (`{}` and `str::parse`), and
-- the lines of a text (`str::lines`).
use Prim.Native.Nat.{ℕ, zero, suc, ◌+◌, ◌-◌, ◌*◌, ◌/◌, ◌%◌, ◌^◌, ◌<◌}
use mathlib.Core.Path.{◌≡◌, refl, ap, ◌∙◌}
use mathlib.Core.Logic.{inl, inr}
use mathlib.Core.Bool.{Bool, true, false}
use mathlib.Core.Option.{Option, none, some}
use mathlib.Core.List.{List, [], ◌∷◌, ◌++◌}
use native.Mathlib.Omega.{arith}
use uswarm_unitctl.Base.Tests.{Bool-cases, ltb, leb, ◌==◌, if◌then◌else◌}
use uswarm_unitctl.Base.Lists.{all}
use uswarm_unitctl.Base.Strings.{Text, is_empty}
use uswarm_unitctl.Base.Decimal.{decimal, decimal_fuel, decimal-digits, is_digit}

-- `pos n` is n, `negsuc n` is - n - 1.
pub data ℤ : Type 0 where
  pos : ℕ → ℤ
  negsuc : ℕ → ℤ

abbrev pub negate : ℕ → ℤ
negate zero = pos 0
negate (suc n) = negsuc n

-- `a ⊖ b` is the difference of two natural numbers.
infix 40 ◌⊖◌
abbrev pub ◌⊖◌ : ℕ → ℕ → ℤ
a ⊖ b = if leb b a then pos (a - b) else negsuc (b - a - 1)

-- `a + b`, where it does not overflow.
infixl 40 ◌+ℤ◌
abbrev pub ◌+ℤ◌ : ℤ → ℤ → ℤ
pos a +ℤ pos b = pos (a + b)
pos a +ℤ negsuc b = a ⊖ (b + 1)
negsuc a +ℤ pos b = b ⊖ (a + 1)
negsuc a +ℤ negsuc b = negsuc (a + b + 1)

-- `a / n`, rounded towards zero.
abbrev pub quotient : ℤ → ℕ → ℤ
quotient (pos a) n = pos (a / n)
quotient (negsuc a) n = negate ((a + 1) / n)

abbrev pub int_eq : ℤ → ℤ → Bool
int_eq (pos a) (pos b) = a == b
int_eq (negsuc a) (negsuc b) = a == b
int_eq _ _ = false

abbrev pub int_leb : ℤ → ℤ → Bool
int_leb (pos a) (pos b) = leb a b
int_leb (pos a) (negsuc b) = false
int_leb (negsuc a) (pos b) = true
int_leb (negsuc a) (negsuc b) = leb b a

-- The value fits in an `i32`.
abbrev pub IsI32 : ℤ → Type 0
IsI32 (pos n) = n < 2 ^ 31
IsI32 (negsuc n) = n < 2 ^ 31

unfoldable pub show_int : ℤ → Text
show_int (pos n) = decimal n
show_int (negsuc n) = b'-' ∷ decimal (suc n)

-- The value of a text of digits, after digits of the value `acc`.
unfoldable pub digits_value : ℕ → Text → Option ℕ
digits_value acc [] = some acc
digits_value acc (c ∷ s) =
    let rest = digits_value (acc * 10 + (c - 48)) s in if is_digit c then rest else none

abbrev pub parse_digits : Text → Option ℕ
parse_digits [] = none
parse_digits (c ∷ s) = digits_value 0 (c ∷ s)

abbrev at_most : ℕ → Option ℕ → Option ℕ
at_most limit none = none
at_most limit (some n) = if leb n limit then some n else none

abbrev with_sign : (ℕ → ℤ) → Option ℕ → Option ℤ
with_sign sign none = none
with_sign sign (some n) = some (sign n)

-- `s.parse::<i32>()`
unfoldable pub parse_i32 : Text → Option ℤ
unfolding digits_value
parse_i32 [] = none
parse_i32 (c ∷ s) =
    if c == b'-'
    then with_sign negate (at_most (2 ^ 31) (parse_digits s))
    else with_sign pos (at_most (2 ^ 31 - 1) (parse_digits (if c == b'+' then s else c ∷ s)))

-- `s.parse::<i64>()`
unfoldable pub parse_i64 : Text → Option ℤ
unfolding digits_value
parse_i64 [] = none
parse_i64 (c ∷ s) =
    if c == b'-'
    then with_sign negate (at_most (2 ^ 63) (parse_digits s))
    else with_sign pos (at_most (2 ^ 63 - 1) (parse_digits (if c == b'+' then s else c ∷ s)))

-- `s.parse::<u64>()`
unfoldable pub parse_u64 : Text → Option ℕ
unfolding digits_value
parse_u64 [] = none
parse_u64 (c ∷ s) = at_most (2 ^ 64 - 1) (parse_digits (if c == b'+' then s else c ∷ s))

-- `s.parse::<u8>()`
unfoldable pub parse_u8 : Text → Option ℕ
unfolding digits_value
parse_u8 [] = none
parse_u8 (c ∷ s) = at_most 255 (parse_digits (if c == b'+' then s else c ∷ s))

-- `s.lines()`: the texts that end with a line feed, without it and a carriage return before it, and
-- what stands after the last line feed, unless it is empty. `line` is the line so far.
abbrev pub without_return : Text → Text
without_return [] = []
without_return (c ∷ []) = if c == 13 then [] else c ∷ []
without_return (c ∷ d ∷ s) = c ∷ without_return (d ∷ s)

abbrev last_line : Text → List Text
last_line [] = []
last_line (c ∷ s) = (c ∷ s) ∷ []

unfoldable pub lines_from : Text → Text → List Text
lines_from line [] = last_line line
lines_from line (c ∷ s) =
    let next = lines_from [] s in
    let longer = lines_from (line ++ c ∷ []) s in
    if c == 10 then without_return line ∷ next else longer

unfoldable pub lines : Text → List Text
unfolding lines_from
lines s = lines_from [] s

digits_value-append :
    (acc : ℕ) (s : Text) (c n : ℕ)
    → is_digit c ≡ true
    → digits_value acc s ≡ some n
    → digits_value acc (s ++ c ∷ []) ≡ some (n * 10 + (c - 48))
unfolding digits_value
digits_value-append acc [] c n hc h = ground arith
digits_value-append acc (d ∷ s) c n hc h =
    ground (arith, digits_value-append (acc * 10 + (d - 48)) s c n)

digits_value-decimal_fuel : (fuel n : ℕ) → n < fuel → digits_value 0 (decimal_fuel fuel n) ≡ some n
unfolding digits_value decimal_fuel
digits_value-decimal_fuel zero n h = ground arith
digits_value-decimal_fuel (suc fuel) n h = elim (Bool-cases (ltb n 10)) [
  | inl small ↦ rw small ground arith
  | inr large ↦ rw large (
      digits_value-append 0 (decimal_fuel fuel (n / 10)) (48 + n % 10) (n / 10) (ground arith)
        (digits_value-decimal_fuel fuel (n / 10) (ground arith))
      ∙ ap some (ground arith))
]

-- A printed number is parsed back.
pub digits_value-decimal : (n : ℕ) → digits_value 0 (decimal n) ≡ some n
unfolding decimal
digits_value-decimal n = digits_value-decimal_fuel (suc n) n (omega arith)

pub is_empty-append : (s : Text) (c : ℕ) → is_empty (s ++ c ∷ []) ≡ false
is_empty-append [] c = refl
is_empty-append (d ∷ s) c = refl

pub decimal_nonempty : (n : ℕ) → is_empty (decimal n) ≡ false
unfolding decimal decimal_fuel
decimal_nonempty n = elim (Bool-cases (ltb n 10)) [
  | inl small ↦ rw small refl
  | inr large ↦ rw large (is_empty-append (decimal_fuel n (n / 10)) (48 + n % 10))
]

-- A text of digits has no sign.
parse_i32_digits :
    (s : Text) (n : ℕ)
    → is_empty s ≡ false
    → all is_digit s ≡ true
    → digits_value 0 s ≡ some n
    → n < 2 ^ 31
    → parse_i32 s ≡ some (pos n)
unfolding parse_i32
parse_i32_digits [] n e d v h = ground arith
parse_i32_digits (c ∷ s) n e d v h =
    let minus : (c == b'-') ≡ false = ground arith in
    let plus : (c == b'+') ≡ false = ground arith in rw (minus, plus, v) ground arith

parse_i32_minus :
    (s : Text) (n : ℕ)
    → is_empty s ≡ false
    → digits_value 0 s ≡ some (suc n)
    → n < 2 ^ 31
    → parse_i32 (b'-' ∷ s) ≡ some (negsuc n)
unfolding parse_i32
parse_i32_minus [] n e v h = ground arith
parse_i32_minus (c ∷ s) n e v h = rw v ground arith

-- `to_string` of an `i32`, parsed back.
pub parse_i32-show_int : (z : ℤ) → IsI32 z → parse_i32 (show_int z) ≡ some z
unfolding show_int
parse_i32-show_int (pos n) h =
    parse_i32_digits (decimal n) n (decimal_nonempty n) (decimal-digits n) (digits_value-decimal n)
      h
parse_i32-show_int (negsuc n) h =
    parse_i32_minus (decimal (suc n)) n (decimal_nonempty (suc n)) (digits_value-decimal (suc n)) h
