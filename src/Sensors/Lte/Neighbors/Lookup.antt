-- ===== src/Sensors/Lte/Neighbors/Lookup.antt =====
-- sensors/lte.rs: what a query of the neighbour cells leaves under each key.
use uswarm_unitctl.Base.{
  ℕ, ◌≡◌, refl, sym, ap, ◌∙◌, Bool, true, false, Option, none, some, List, [], ◌∷◌, Text, ℤ, pos,
  negsuc, int_eq, if◌then◌else◌, Bool-cases, inl, inr, arith,
}
use uswarm_unitctl.Float.{F64}
use uswarm_unitctl.Messages.Telemetry.{LteNeighborCell}
use uswarm_unitctl.Sensors.Lte.Parse.{parse_quectel_neighbor}
use uswarm_unitctl.Sensors.Lte.Neighbors.{
  Neighbors, insert_cell, seen_at, observe_cell, observe, is_fresh, expire_neighbors,
}

-- `neighbors.get(key)`
unfoldable pub lookup : ℤ → Neighbors → Option LteNeighborCell
lookup k [] = none
lookup k ((key, cell) ∷ rest) =
    let later = lookup k rest in if int_eq key k then some cell else later

pub int_eq_refl : (z : ℤ) → int_eq z z ≡ true
int_eq_refl (pos n) = ground arith
int_eq_refl (negsuc n) = ground arith

true_ne_false : true ≡ false → ⊥
true_ne_false h = ground arith

pub int_eq_sound : (a b : ℤ) → int_eq a b ≡ true → a ≡ b
int_eq_sound (pos a) (pos b) h = ap pos (ground arith)
int_eq_sound (pos a) (negsuc b) h = ground arith
int_eq_sound (negsuc a) (pos b) h = ground arith
int_eq_sound (negsuc a) (negsuc b) h = ap negsuc (ground arith)

-- The keys are distinct.
abbrev pub HasDistinctKeys : Neighbors → Type 0
HasDistinctKeys [] = Unit
HasDistinctKeys ((key, cell) ∷ rest) = (lookup key rest ≡ none) × HasDistinctKeys rest

-- What a line says of the cell `k`, after `old`.
abbrev pub line_cell :
    ℤ → ℕ → ℤ → Option LteNeighborCell → Option LteNeighborCell → Option LteNeighborCell
line_cell serving now k none old = old
line_cell serving now k (some cell) old =
    if int_eq cell.pcid serving
    then old
    else if int_eq cell.pcid k
    then some (seen_at now cell)
    else old

-- The last line that reports the cell `k` counts, if `k` is not the serving cell.
abbrev pub reported : ℤ → ℕ → ℤ → List Text → Option LteNeighborCell → Option LteNeighborCell
reported serving now k [] old = old
reported serving now k (line ∷ rest) old =
    reported serving now k rest (line_cell serving now k (parse_quectel_neighbor line) old)

if_twice :
    {A : Type 0} (b : Bool) (x y z : A)
    → (if b then x else z) ≡ (if b then x else if b then y else z)
if_twice true x y z = refl
if_twice false x y z = refl

not_both : (a b k : ℤ) → int_eq a b ≡ false → int_eq a k ≡ true → int_eq b k ≡ false
not_both a b k h e = elim (Bool-cases (int_eq b k)) [
  | inr apart ↦ apart
  | inl same ↦
      let joined : a ≡ b = int_eq_sound a k e ∙ sym (int_eq_sound b k same) in
      absurd (true_ne_false (sym (int_eq_refl a) ∙ ap (int_eq a) joined ∙ h))
]

int_eq-false : (a b : ℤ) → int_eq b a ≡ false → int_eq a b ≡ false
int_eq-false (pos a) (pos b) h = ground arith
int_eq-false (pos a) (negsuc b) h = refl
int_eq-false (negsuc a) (pos b) h = refl
int_eq-false (negsuc a) (negsuc b) h = ground arith

lookup-insert_cell :
    (k : ℤ) (cell : LteNeighborCell) (ns : Neighbors)
    → lookup k (insert_cell cell ns) ≡ (if int_eq cell.pcid k then some cell else lookup k ns)
unfolding lookup insert_cell
lookup-insert_cell k cell [] = refl
lookup-insert_cell k cell ((key, old) ∷ rest) = elim (Bool-cases (int_eq key cell.pcid)) [
  | inl same ↦
      let same_test : int_eq cell.pcid k ≡ int_eq key k =
        ap (λ z. int_eq z k) (sym (int_eq_sound key cell.pcid same)) in
      rw (same, same_test) (if_twice (int_eq key k) (some cell) (some old) (lookup k rest))
  | inr other ↦
      rw (other, lookup-insert_cell k cell rest)
        (elim (Bool-cases (int_eq key k)) [
          | inr apart ↦ rw apart refl
          | inl here ↦ rw (here, not_both key cell.pcid k other here) refl
        ])
]

lookup-observe_cell :
    (serving : ℤ) (now : ℕ) (k : ℤ) (o : Option LteNeighborCell) (ns : Neighbors)
    → lookup k (observe_cell serving now o ns) ≡ line_cell serving now k o (lookup k ns)
lookup-observe_cell serving now k none ns = refl
lookup-observe_cell serving now k (some cell) ns = elim (Bool-cases (int_eq cell.pcid serving)) [
  | inl e ↦ rw e refl
  | inr e ↦ rw e (lookup-insert_cell k (seen_at now cell) ns)
]

-- After a query, the cell `k` is the one that the last line with this id reports, seen now, unless `k`
-- is the serving cell or no line has it: then what was known of it is unchanged.
lookup-observe :
    (serving : ℤ) (now : ℕ) (k : ℤ) (ls : List Text) (ns : Neighbors)
    → lookup k (observe serving now ls ns) ≡ reported serving now k ls (lookup k ns)
unfolding observe
lookup-observe serving now k [] ns = refl
lookup-observe serving now k (line ∷ rest) ns =
    lookup-observe serving now k rest (observe_cell serving now (parse_quectel_neighbor line) ns)
    ∙ ap (reported serving now k rest)
        (lookup-observe_cell serving now k (parse_quectel_neighbor line) ns)

abbrev pub if_fresh : F64 → ℕ → Option LteNeighborCell → Option LteNeighborCell
if_fresh expiry_s now none = none
if_fresh expiry_s now (some cell) = if is_fresh expiry_s now cell then some cell else none

-- Where the keys are distinct, expiry drops a cell exactly if it is not fresh.
pub lookup-expire_neighbors :
    (expiry_s : F64) (now : ℕ) (k : ℤ) (ns : Neighbors)
    → HasDistinctKeys ns
    → lookup k (expire_neighbors expiry_s now ns) ≡ if_fresh expiry_s now (lookup k ns)
unfolding lookup expire_neighbors
lookup-expire_neighbors expiry_s now k [] d = refl
lookup-expire_neighbors expiry_s now k ((key, cell) ∷ rest) d =
    let later = lookup-expire_neighbors expiry_s now k rest d.1 in
    elim (Bool-cases (is_fresh expiry_s now cell)) [
      | inl fresh ↦ elim (Bool-cases (int_eq key k)) [
        | inl here ↦ rw (here, fresh, if_fresh, here) refl
        | inr apart ↦ rw (fresh, apart) later
      ]
      | inr stale ↦ elim (Bool-cases (int_eq key k)) [
        | inl here ↦
            let absent : lookup k rest ≡ none =
              ap (λ z. lookup z rest) (sym (int_eq_sound key k here)) ∙ d.0 in
            rw (stale, here, if_fresh, stale) (later ∙ ap (if_fresh expiry_s now) absent)
        | inr apart ↦ rw (stale, apart) later
      ]
    ]

HasDistinctKeys-insert_cell :
    (cell : LteNeighborCell) (ns : Neighbors)
    → HasDistinctKeys ns
    → HasDistinctKeys (insert_cell cell ns)
unfolding insert_cell lookup
HasDistinctKeys-insert_cell cell [] d = (refl, tt)
HasDistinctKeys-insert_cell cell ((key, old) ∷ rest) d = elim (Bool-cases (int_eq key cell.pcid)) [
  | inl same ↦ rw same d
  | inr other ↦ rw other (
    lookup-insert_cell key cell rest ∙ rw (int_eq-false cell.pcid key other) d.0,
    HasDistinctKeys-insert_cell cell rest d.1,
  )
]

HasDistinctKeys-observe_cell :
    (serving : ℤ) (now : ℕ) (o : Option LteNeighborCell) (ns : Neighbors)
    → HasDistinctKeys ns
    → HasDistinctKeys (observe_cell serving now o ns)
HasDistinctKeys-observe_cell serving now none ns d = d
HasDistinctKeys-observe_cell serving now (some cell) ns d =
    elim (Bool-cases (int_eq cell.pcid serving)) [
      | inl e ↦ rw e d
      | inr e ↦ rw e (HasDistinctKeys-insert_cell (seen_at now cell) ns d)
    ]

pub HasDistinctKeys-observe :
    (serving : ℤ) (now : ℕ) (ls : List Text) (ns : Neighbors)
    → HasDistinctKeys ns
    → HasDistinctKeys (observe serving now ls ns)
unfolding observe
HasDistinctKeys-observe serving now [] ns d = d
HasDistinctKeys-observe serving now (line ∷ rest) ns d =
    HasDistinctKeys-observe serving now rest _
      (HasDistinctKeys-observe_cell serving now (parse_quectel_neighbor line) ns d)

pub HasDistinctKeys-expire_neighbors :
    (expiry_s : F64) (now : ℕ) (ns : Neighbors)
    → HasDistinctKeys ns
    → HasDistinctKeys (expire_neighbors expiry_s now ns)
unfolding expire_neighbors
HasDistinctKeys-expire_neighbors expiry_s now [] d = tt
HasDistinctKeys-expire_neighbors expiry_s now ((key, cell) ∷ rest) d =
    elim (Bool-cases (is_fresh expiry_s now cell)) [
      | inl e ↦ rw e (
        lookup-expire_neighbors expiry_s now key rest d.1 ∙ ap (if_fresh expiry_s now) d.0,
        HasDistinctKeys-expire_neighbors expiry_s now rest d.1,
      )
      | inr e ↦ rw e (HasDistinctKeys-expire_neighbors expiry_s now rest d.1)
    ]

-- From a map with distinct keys, a neighbour query leaves under each id the cell of the last line that
-- reports it, seen now, or, where none does or the id is the serving cell's, what was known of it;
-- either only if it is not older than the expiry time.
pub query-lookup :
    (serving : ℤ) (expiry_s : F64) (now : ℕ) (k : ℤ) (ls : List Text) (ns : Neighbors)
    → HasDistinctKeys ns
    → lookup k (expire_neighbors expiry_s now (observe serving now ls ns))
      ≡ if_fresh expiry_s now (reported serving now k ls (lookup k ns))
query-lookup serving expiry_s now k ls ns d =
    lookup-expire_neighbors expiry_s now k (observe serving now ls ns)
      (HasDistinctKeys-observe serving now ls ns d)
    ∙ ap (if_fresh expiry_s now) (lookup-observe serving now k ls ns)
