-- ===== src/Base/Sets.antt =====
-- `HashSet<String>` as a list without repetitions, and the join of lines.

use mathlib.Core.Path.{◌≡◌, refl}
use mathlib.Core.Bool.{Bool, false, ◌||◌}
use mathlib.Core.List.{List, [], ◌∷◌, ◌++◌}
use native.Mathlib.Omega.{arith}
use uswarm_unitctl.Base.Tests.{if◌then◌else◌}
use uswarm_unitctl.Base.Strings.{Text, text_eq, text_eq_iff}

-- `set.contains(u)`
unfoldable pub has : List Text → Text → Bool
has [] u = false
has (v ∷ set) u = text_eq v u || has set u

-- `set.insert(u)`
unfoldable pub insert : List Text → Text → List Text
insert set u = if has set u then set else set ++ u ∷ []

-- `set.remove(u)`
unfoldable pub remove : List Text → Text → List Text
remove [] u = []
remove (v ∷ set) u = let rest = remove set u in if text_eq v u then rest else v ∷ rest

-- Nothing stands in the list twice.
abbrev pub AreDistinct : List Text → Type 0
AreDistinct [] = Unit
AreDistinct (v ∷ set) = (has set v ≡ false) × AreDistinct set

pub has-append : (xs ys : List Text) (u : Text) → has (xs ++ ys) u ≡ (has xs u || has ys u)
unfolding has
has-append [] ys u = refl
has-append (x ∷ xs) ys u = ground (arith, has-append xs ys u)

pub remove_absent : (set : List Text) (u : Text) → has set u ≡ false → remove set u ≡ set
unfolding has remove
remove_absent [] u h = refl
remove_absent (v ∷ set) u h = ground (arith, remove_absent set u)

pub AreDistinct-append :
    (xs : List Text) (u : Text) → AreDistinct xs → has xs u ≡ false → AreDistinct (xs ++ u ∷ [])
unfolding has
AreDistinct-append [] u d h = (refl, tt)
AreDistinct-append (x ∷ xs) u d h = (
  ground (arith, has-append xs (u ∷ []) x, text_eq_iff x u, text_eq_iff u x),
  AreDistinct-append xs u d.1 (ground arith),
)
