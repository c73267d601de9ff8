-- ===== src/Base/Fields.antt =====
-- Texts of fields: `nth` of the pieces, `trim_matches('"')`, and what trimming, splitting and the
-- lines do to the texts that a `format!` puts together.
use Prim.Native.Nat.{ℕ, zero, suc}
use mathlib.Core.Path.{◌≡◌, refl, sym, ap, ◌∙◌}
use mathlib.Core.Bool.{Bool, true, false}
use mathlib.Core.Option.{Option, none, some}
use mathlib.Core.List.{
  List, [], ◌∷◌, ◌++◌, reverse, reverse-append, reverse-cons, reverse-reverse, append_assoc,
  append-nil,
}
use native.Mathlib.Omega.{arith}
use uswarm_unitctl.Base.Tests.{◌==◌, if◌then◌else◌}
use uswarm_unitctl.Base.Lists.{all, all-append}
use uswarm_unitctl.Base.Strings.{Text, is_empty, is_whitespace, trim, trim_start}
use uswarm_unitctl.Base.Decimal.{
  decimal, decimal-digits, is_digit, is_free_of, split, split-append, split_whole,
}
use uswarm_unitctl.Base.Integers.{
  ℤ, pos, negsuc, show_int, lines, lines_from, without_return, is_empty-append,
}

-- `Iterator::nth` and the index of a slice where it is in range.
abbrev pub get_elem? {ℓ} : {A : Type ℓ} → List A → ℕ → Option A
get_elem? [] i = none
get_elem? (x ∷ xs) zero = some x
get_elem? (x ∷ xs) (suc i) = get_elem? xs i

unfoldable drop_quotes : Text → Text
drop_quotes [] = []
drop_quotes (c ∷ s) = let rest = drop_quotes s in if c == b'"' then rest else c ∷ s

-- `s.trim_matches('"')`
unfoldable pub trim_quotes : Text → Text
unfolding drop_quotes
trim_quotes s = reverse (drop_quotes (reverse (drop_quotes s)))

-- A character that the program neither trims nor splits at.
abbrev pub is_field_char : ℕ → Bool
is_field_char c = if c == b'-' then true else if c == b'+' then true else is_digit c

all-reverse : (p : ℕ → Bool) (s : Text) → all p (reverse s) ≡ all p s
all-reverse p [] = refl
all-reverse p (c ∷ s) =
    rw (reverse-cons c s) ground (arith, all-append p (reverse s) (c ∷ []), all-reverse p s)

trim_start-append :
    (w s : Text) → is_empty w ≡ false → all is_field_char w ≡ true → trim_start (w ++ s) ≡ w ++ s
unfolding trim_start is_whitespace
trim_start-append [] s e h = ground arith
trim_start-append (c ∷ w) s e h = ground arith

is_empty-reverse : (w : Text) → is_empty w ≡ false → is_empty (reverse w) ≡ false
is_empty-reverse [] e = e
is_empty-reverse (c ∷ w) e = rw (reverse-cons c w) (is_empty-append (reverse w) c)

-- Nothing is trimmed from a text that begins and ends with a field.
pub trim_between :
    (w s v : Text)
    → is_empty w ≡ false
    → all is_field_char w ≡ true
    → is_empty v ≡ false
    → all is_field_char v ≡ true
    → trim (w ++ (s ++ v)) ≡ w ++ (s ++ v)
unfolding trim
trim_between w s v we wf ve vf =
    let back : reverse (w ++ (s ++ v)) ≡ reverse v ++ reverse (w ++ s) =
      ap reverse (sym (append_assoc w s v)) ∙ reverse-append (w ++ s) v in
    rw
      (
        trim_start-append w (s ++ v) we wf,
        back,
        trim_start-append (reverse v) (reverse (w ++ s)) (is_empty-reverse v ve)
            (all-reverse is_field_char v ∙ vf),
        sym back,
      )
      (reverse-reverse (w ++ (s ++ v)))

trim_start_field : (s : Text) → all is_field_char s ≡ true → trim_start s ≡ s
unfolding trim_start is_whitespace
trim_start_field [] h = refl
trim_start_field (c ∷ s) h = ground arith

drop_quotes_field : (s : Text) → all is_field_char s ≡ true → drop_quotes s ≡ s
unfolding drop_quotes
drop_quotes_field [] h = refl
drop_quotes_field (c ∷ s) h = ground arith

pub trim_field : (s : Text) → all is_field_char s ≡ true → trim s ≡ s
unfolding trim
trim_field s h =
    rw (trim_start_field s h, trim_start_field (reverse s) (all-reverse is_field_char s ∙ h))
      (reverse-reverse s)

pub trim_quotes_field : (s : Text) → all is_field_char s ≡ true → trim_quotes s ≡ s
unfolding trim_quotes
trim_quotes_field s h =
    rw (drop_quotes_field s h, drop_quotes_field (reverse s) (all-reverse is_field_char s ∙ h))
      (reverse-reverse s)

pub field_of_digits : (s : Text) → all is_digit s ≡ true → all is_field_char s ≡ true
field_of_digits [] h = refl
field_of_digits (c ∷ s) h = ground (arith, field_of_digits s)

pub field-show_int : (z : ℤ) → all is_field_char (show_int z) ≡ true
unfolding show_int
field-show_int (pos n) = field_of_digits (decimal n) (decimal-digits n)
field-show_int (negsuc n) = field_of_digits (decimal (suc n)) (decimal-digits (suc n))

free_of_field :
    (c : ℕ) (s : Text)
    → is_field_char c ≡ false
    → all is_field_char s ≡ true
    → is_free_of c s ≡ true
free_of_field c [] h k = refl
free_of_field c (d ∷ s) h k = ground (arith, free_of_field c s)

pub is_free_of-show_int :
    (c : ℕ) (z : ℤ) → is_field_char c ≡ false → is_free_of c (show_int z) ≡ true
is_free_of-show_int c z h = free_of_field c (show_int z) h (field-show_int z)

-- The texts of a row with `sep` between them.
unfoldable pub join : ℕ → List Text → Text
join sep [] = []
join sep (w ∷ []) = w
join sep (w ∷ v ∷ ws) = w ++ sep ∷ join sep (v ∷ ws)

-- Splitting takes a join apart.
pub split-join :
    (sep : ℕ) (w : Text) (ws : List Text)
    → all (is_free_of sep) (w ∷ ws) ≡ true
    → split sep (join sep (w ∷ ws)) ≡ w ∷ ws
unfolding join
split-join sep w [] h = split_whole sep w (ground arith)
split-join sep w (v ∷ ws) h =
    split-append sep w (join sep (v ∷ ws)) (ground arith)
    ∙ ap (λ vs. w ∷ vs) (split-join sep v ws (ground arith))

without_return-append : (s : Text) → without_return (s ++ 13 ∷ []) ≡ s
without_return-append [] = refl
without_return-append (c ∷ []) = refl
without_return-append (c ∷ d ∷ s) = ap (λ t. c ∷ t) (without_return-append (d ∷ s))

lines_from-append :
    (line w s : Text)
    → is_free_of 10 w ≡ true
    → lines_from line (w ++ 13 ∷ 10 ∷ s) ≡ (line ++ w) ∷ lines s
unfolding lines lines_from
lines_from-append line [] s h =
    ap (λ t. t ∷ lines_from [] s) (without_return-append line ∙ sym (append-nil line))
lines_from-append line (c ∷ w) s h =
    let other : (c == 10) ≡ false = ground arith in
    rw other (
      lines_from-append (line ++ c ∷ []) w s (ground arith)
      ∙ ap (λ t. t ∷ lines_from [] s) (append_assoc line (c ∷ []) w))

-- A line that ends as in a protocol, and those after it.
pub lines-append : (w s : Text) → is_free_of 10 w ≡ true → lines (w ++ 13 ∷ 10 ∷ s) ≡ w ∷ lines s
unfolding lines
lines-append w s h = lines_from-append [] w s h

free_of-append :
    (c : ℕ) (w s : Text)
    → is_free_of c w ≡ true
    → is_free_of c s ≡ true
    → is_free_of c (w ++ s) ≡ true
free_of-append c [] s hw hs = hs
free_of-append c (d ∷ w) s hw hs = ground (arith, free_of-append c w s)

-- A character that is in none of the texts and is not the separator is not in the join.
pub is_free_of-join :
    (c sep : ℕ) (ws : List Text)
    → (sep == c) ≡ false
    → all (is_free_of c) ws ≡ true
    → is_free_of c (join sep ws) ≡ true
unfolding join
is_free_of-join c sep [] h k = refl
is_free_of-join c sep (w ∷ []) h k = ground arith
is_free_of-join c sep (w ∷ v ∷ ws) h k =
    free_of-append c w (sep ∷ join sep (v ∷ ws)) (ground arith)
      (rw h (is_free_of-join c sep (v ∷ ws) h (ground arith)))
