-- ===== src/Base/Strings.antt =====
-- Texts as lists of code points, and the methods of Rust's `str` that the program calls.
use Prim.Native.Nat.{ℕ}
use Prim.Native.Char.{code}
use Prim.Native.String.{String}
use mathlib.Core.Path.{◌≡◌, refl, sym, ap, ◌∙◌}
use mathlib.Core.Logic.{inl, inr, ◌↔◌}
use mathlib.Core.Bool.{Bool, true, false, ◌&&◌, ◌||◌}
use mathlib.Core.Option
use mathlib.Core.Option.{Option, none, some}
use mathlib.Core.List.{List, [], ◌∷◌, ◌++◌, reverse, reverse-append, reverse-reverse}
use native.Mathlib.Omega.{arith}
use uswarm_unitctl.Base.Tests.{Bool-cases, leb, ◌==◌, if◌then◌else◌}
use uswarm_unitctl.Base.Lists.{any}

abbrev pub Text : Type 0
Text = List ℕ

abbrev pub codes : String → Text
codes String.[] = []
codes (String.◌∷◌ c s) = code c ∷ codes s

abbrev pub is_empty : Text → Bool
is_empty [] = true
is_empty (c ∷ s) = false

unfoldable pub text_eq : Text → Text → Bool
text_eq [] [] = true
text_eq (a ∷ s) (b ∷ t) = (a == b) && text_eq s t
text_eq _ _ = false

-- `s.contains(c)` for a character.
abbrev pub contains_char : Text → ℕ → Bool
contains_char s c = any (λ d. d == c) s

-- `s.strip_prefix(p)`
unfoldable pub strip_prefix : Text → Text → Option Text
strip_prefix s [] = some s
strip_prefix [] (p ∷ ps) = none
strip_prefix (c ∷ s) (p ∷ ps) = let rest = strip_prefix s ps in if c == p then rest else none

abbrev pub is_some {ℓ} : {A : Type ℓ} → Option A → Bool
is_some none = false
is_some (some a) = true

-- `s.starts_with(p)`
abbrev pub starts_with : Text → Text → Bool
starts_with s p = is_some (strip_prefix s p)

-- `s.strip_suffix(p)`
abbrev pub strip_suffix : Text → Text → Option Text
strip_suffix s p = Option.map reverse (strip_prefix (reverse s) (reverse p))

-- `s.ends_with(p)`
abbrev pub ends_with : Text → Text → Bool
ends_with s p = starts_with (reverse s) (reverse p)

-- `s.contains(t)` for a text.
unfoldable pub contains : Text → Text → Bool
contains [] t = is_empty t
contains (c ∷ s) t = starts_with (c ∷ s) t || contains s t

-- `char::is_whitespace`: the Unicode property White_Space.
unfoldable pub is_whitespace : ℕ → Bool
is_whitespace c =
    (leb 0x9 c && leb c 0xd)
    || (c == 0x20)
    || (c == 0x85)
    || (c == 0xa0)
    || (c == 0x1680)
    || (leb 0x2000 c && leb c 0x200a)
    || (c == 0x2028)
    || (c == 0x2029)
    || (c == 0x202f)
    || (c == 0x205f)
    || (c == 0x3000)

unfoldable pub trim_start : Text → Text
unfolding is_whitespace
trim_start [] = []
trim_start (c ∷ s) = let rest = trim_start s in if is_whitespace c then rest else c ∷ s

-- `s.trim()`
unfoldable pub trim : Text → Text
unfolding trim_start
trim s = reverse (trim_start (reverse (trim_start s)))

pub text_eq_refl : (s : Text) → text_eq s s ≡ true
unfolding text_eq
text_eq_refl [] = refl
text_eq_refl (c ∷ s) = ground (arith, text_eq_refl s)

pub text_eq_sound : (s t : Text) → text_eq s t ≡ true → s ≡ t
unfolding text_eq
text_eq_sound [] [] h = refl
text_eq_sound [] (b ∷ t) h = ground arith
text_eq_sound (a ∷ s) [] h = ground arith
text_eq_sound (a ∷ s) (b ∷ t) h = ground (arith, text_eq_sound s t)

pub text_eq_iff : (s t : Text) → (text_eq s t ≡ true) ↔ (s ≡ t)
text_eq_iff s t = (text_eq_sound s t, λ e. ap (text_eq s) (sym e) ∙ text_eq_refl s)

pub strip_prefix-append : (p s : Text) → strip_prefix (p ++ s) p ≡ some s
unfolding strip_prefix
strip_prefix-append [] [] = refl
strip_prefix-append [] (c ∷ s) = refl
strip_prefix-append (c ∷ p) s = ground (arith, strip_prefix-append p s)

pub strip_prefix_sound : (s p r : Text) → strip_prefix s p ≡ some r → s ≡ p ++ r
unfolding strip_prefix
strip_prefix_sound [] [] r h = ground arith
strip_prefix_sound (c ∷ s) [] r h = ground arith
strip_prefix_sound [] (d ∷ p) r h = ground arith
strip_prefix_sound (c ∷ s) (d ∷ p) r h = ground (arith, strip_prefix_sound s p r)

pub strip_suffix-append : (s p : Text) → strip_suffix (s ++ p) p ≡ some s
strip_suffix-append s p =
    rw (reverse-append s p, strip_prefix-append (reverse p) (reverse s))
      (ap some (reverse-reverse s))

trim_start-append :
    (s : Text)
    → trim_start (s ++ 10 ∷ []) ≡ (if is_empty (trim_start s) then [] else trim_start s ++ 10 ∷ [])
unfolding trim_start is_whitespace
trim_start-append [] = refl
trim_start-append (c ∷ s) = elim (Bool-cases (is_whitespace c)) [
  | inl space ↦ rw space (trim_start-append s)
  | inr other ↦ rw other refl
]

trimmed_end :
    (t : Text)
    → reverse (trim_start (reverse (if is_empty t then [] else t ++ 10 ∷ [])))
      ≡ reverse (trim_start (reverse t))
unfolding trim_start is_whitespace
trimmed_end [] = refl
trimmed_end (c ∷ t) = rw (reverse-append (c ∷ t) (10 ∷ [])) refl

-- A line feed at the end is trimmed off with the rest.
pub trim_line : (s : Text) → trim (s ++ 10 ∷ []) ≡ trim s
unfolding trim
trim_line s =
    ap (λ t. reverse (trim_start (reverse t))) (trim_start-append s) ∙ trimmed_end (trim_start s)
