-- ===== src/Mavlink/Reporter/Order.antt =====
-- mavlink/telemetry_reporter.rs: a tick's messages do not depend on the order in which the map of
-- neighbour cells is iterated.
use mathlib.Core.Path.{ap₂, subst}
use mathlib.Core.List.{Permᴰ}
use uswarm_unitctl.Base.{
  ℕ, ◌≡◌, refl, sym, ap, ◌∙◌, Bool, true, false, not, ◌&&◌, Bool-cases, inl, inr, List, [], ◌∷◌,
  take, all, ℤ, pos, negsuc, int_eq, int_leb, arith,
}
use uswarm_unitctl.Messages.Telemetry.{LteNeighborCell}
use uswarm_unitctl.Mavlink.Reporter.{insert_by_pcid, sort_by_pcid, neighbor_messages}

int_leb_apart : (a b : ℤ) → int_eq a b ≡ false → int_leb b a ≡ not (int_leb a b)
int_leb_apart (pos a) (pos b) h = ground arith
int_leb_apart (pos a) (negsuc b) h = refl
int_leb_apart (negsuc a) (pos b) h = refl
int_leb_apart (negsuc a) (negsuc b) h = ground arith

int_leb_trans : (a b c : ℤ) → int_leb a b ≡ true → int_leb b c ≡ true → int_leb a c ≡ true
int_leb_trans (pos a) (pos b) (pos c) h k = ground arith
int_leb_trans (pos a) (pos b) (negsuc c) h k = ground arith
int_leb_trans (pos a) (negsuc b) c h k = ground arith
int_leb_trans (negsuc a) b (pos c) h k = refl
int_leb_trans (negsuc a) (pos b) (negsuc c) h k = ground arith
int_leb_trans (negsuc a) (negsuc b) (negsuc c) h k = ground arith

pub int_eq_symmetric : (a b : ℤ) → int_eq a b ≡ int_eq b a
int_eq_symmetric (pos a) (pos b) = ground arith
int_eq_symmetric (pos a) (negsuc b) = refl
int_eq_symmetric (negsuc a) (pos b) = refl
int_eq_symmetric (negsuc a) (negsuc b) = ground arith

-- `a` goes before `m` and `b` behind it, so `b` is not before `a`.
behind : (a b m : ℤ) → int_leb a m ≡ true → int_leb b m ≡ false → int_leb b a ≡ false
behind a b m h k = elim (Bool-cases (int_leb b a)) [
  | inr e ↦ e
  | inl e ↦ e ∙ sym (int_leb_trans b a m e h) ∙ k
]

insert_twice :
    (a b : LteNeighborCell) (ns : List LteNeighborCell)
    → int_eq a.pcid b.pcid ≡ false
    → insert_by_pcid a (insert_by_pcid b ns) ≡ insert_by_pcid b (insert_by_pcid a ns)
unfolding insert_by_pcid
insert_twice a b [] h = elim (Bool-cases (int_leb a.pcid b.pcid)) [
  | inl e ↦ rw (int_leb_apart a.pcid b.pcid h, e) refl
  | inr e ↦ rw (int_leb_apart a.pcid b.pcid h, e) refl
]
insert_twice a b (m ∷ ms) h = elim (Bool-cases (int_leb a.pcid m.pcid)) [
  | inl am ↦ elim (Bool-cases (int_leb b.pcid m.pcid)) [
    | inl bm ↦ elim (Bool-cases (int_leb a.pcid b.pcid)) [
      | inl e ↦ rw (am, bm, int_leb_apart a.pcid b.pcid h, e) refl
      | inr e ↦ rw (am, bm, int_leb_apart a.pcid b.pcid h, e, am) refl
    ]
    | inr bm ↦ rw (am, bm, behind a.pcid b.pcid m.pcid am bm, am) refl
  ]
  | inr am ↦ elim (Bool-cases (int_leb b.pcid m.pcid)) [
    | inl bm ↦ rw (am, bm, behind b.pcid a.pcid m.pcid bm am, am) refl
    | inr bm ↦ rw (am, bm, am) (ap (λ ns. m ∷ ns) (insert_twice a b ms h))
  ]
]

-- No cell of `ns` has the id `z`.
abbrev pub lacks : ℤ → List LteNeighborCell → Bool
lacks z ns = all (λ m. not (int_eq z m.pcid)) ns

-- The ids of the cells are distinct.
abbrev pub HasDistinctIds : List LteNeighborCell → Type 0
HasDistinctIds [] = Unit
HasDistinctIds (n ∷ ns) = (lacks n.pcid ns ≡ true) × HasDistinctIds ns

&&_swap : (x y z : Bool) → (x && (y && z)) ≡ (y && (x && z))
&&_swap x y z = ground arith

lacks-Permᴰ : (z : ℤ) {xs ys : List LteNeighborCell} → Permᴰ xs ys → lacks z xs ≡ lacks z ys
lacks-Permᴰ z Permᴰ.nil = refl
lacks-Permᴰ z (Permᴰ.cons e p) = ap₂ (λ n rest. not (int_eq z n.pcid) && rest) e (lacks-Permᴰ z p)
lacks-Permᴰ z (Permᴰ.swap {a} {b} {a'} {b'} {l} e f) =
    &&_swap (not (int_eq z a.pcid)) (not (int_eq z b.pcid)) (lacks z l)
    ∙ ap₂ (λ n m. not (int_eq z n.pcid) && (not (int_eq z m.pcid) && lacks z l)) f e
lacks-Permᴰ z (Permᴰ.trans p q) = lacks-Permᴰ z p ∙ lacks-Permᴰ z q

swapped :
    (a b : LteNeighborCell) (l : List LteNeighborCell)
    → HasDistinctIds (a ∷ b ∷ l)
    → (int_eq a.pcid b.pcid ≡ false) × HasDistinctIds (b ∷ a ∷ l)
swapped a b l (ha, (hb, d)) =
    let apart : int_eq a.pcid b.pcid ≡ false = ground arith in
    let back : int_eq b.pcid a.pcid ≡ false = sym (int_eq_symmetric a.pcid b.pcid) ∙ apart in
    (apart, (rw back hb, (ground arith, d)))

HasDistinctIds-Permᴰ :
    {xs ys : List LteNeighborCell} → Permᴰ xs ys → HasDistinctIds xs → HasDistinctIds ys
HasDistinctIds-Permᴰ Permᴰ.nil d = d
HasDistinctIds-Permᴰ (Permᴰ.cons {a} {b} {l₁} {l₂} e p) d = (
  ap (λ n. lacks n.pcid l₂) (sym e) ∙ sym (lacks-Permᴰ a.pcid p) ∙ d.0,
  HasDistinctIds-Permᴰ p d.1,
)
HasDistinctIds-Permᴰ (Permᴰ.swap {a} {b} {a'} {b'} {l} e f) d =
    subst (λ n. HasDistinctIds (n ∷ b' ∷ l)) f
      (subst (λ m. HasDistinctIds (b ∷ m ∷ l)) e (swapped a b l d).1)
HasDistinctIds-Permᴰ (Permᴰ.trans p q) d = HasDistinctIds-Permᴰ q (HasDistinctIds-Permᴰ p d)

sort_by_pcid-Permᴰ :
    {xs ys : List LteNeighborCell}
    → Permᴰ xs ys
    → HasDistinctIds xs
    → sort_by_pcid xs ≡ sort_by_pcid ys
unfolding sort_by_pcid
sort_by_pcid-Permᴰ Permᴰ.nil d = refl
sort_by_pcid-Permᴰ (Permᴰ.cons e p) d = ap₂ insert_by_pcid e (sort_by_pcid-Permᴰ p d.1)
sort_by_pcid-Permᴰ (Permᴰ.swap {a} {b} {a'} {b'} {l} e f) d =
    insert_twice a b (sort_by_pcid l) (swapped a b l d).0
    ∙ ap₂ (λ n m. insert_by_pcid n (insert_by_pcid m (sort_by_pcid l))) f e
sort_by_pcid-Permᴰ (Permᴰ.trans p q) d =
    sort_by_pcid-Permᴰ p d ∙ sort_by_pcid-Permᴰ q (HasDistinctIds-Permᴰ p d)

-- The messages for the neighbour cells of a tick are the same in whatever order the cells are
-- iterated, if their ids are distinct.
pub neighbor_messages-Perm :
    (sysid compid : ℕ) (xs ys : List LteNeighborCell)
    → Permᴰ xs ys
    → HasDistinctIds xs
    → neighbor_messages sysid compid 0 (take 10 (sort_by_pcid xs))
      ≡ neighbor_messages sysid compid 0 (take 10 (sort_by_pcid ys))
neighbor_messages-Perm sysid compid xs ys p d =
    ap (λ ns. neighbor_messages sysid compid 0 (take 10 ns)) (sort_by_pcid-Permᴰ p d)
