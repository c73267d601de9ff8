-- ===== src/Mqtt/Dedup/Window.antt =====
-- The queue is a sliding window over the uuids that were accepted.
use uswarm_unitctl.Base.{
  ℕ, suc, ◌≤◌, ◌<◌, ◌≡◌, refl, sym, ap, ◌∙◌, Bool, true, false, inl, inr, List, [], ◌∷◌, ◌++◌,
  reverse, Text, length, leb, leb-true, leb-false, take, take-suc, take_all, length-take, has,
  insert, remove, AreDistinct, AreDistinct-append, length-append, remove_absent, text_eq_refl,
  has-append, if◌then◌else◌, arith, Bool-cases,
}
use mathlib.Core.Path.{subst, ap₂}
use mathlib.Core.List.{reverse-append}
use uswarm_unitctl.Mqtt.Dedup.{
  DedupQueue, dedup_capacity, with_capacity, pop_oldest, record_uuid, record_all,
}

-- The specification keeps the whole history of accepted uuids, the newest first.
unfoldable pub record_spec : List Text → Text → List Text × Bool
record_spec history u =
    if has (take dedup_capacity history) u then (history, false) else (u ∷ history, true)

unfoldable pub record_all_spec : List Text → List Text → List Text × List Bool
record_all_spec history [] = (history, [])
record_all_spec history (u ∷ us) =
    let (history', fresh) = record_spec history u in
    let (history'', answers) = record_all_spec history' us in (history'', fresh ∷ answers)

-- The queue stands for a history: both containers hold its last entries, the oldest in front.
pub record IsWindow (q : DedupQueue) (history : List Text) : Type 0 where
  pub same : q.seen ≡ q.order
  pub last : q.order ≡ reverse (take dedup_capacity history)
  pub distinct : AreDistinct q.order

has-reverse : (xs : List Text) (u : Text) → has (reverse xs) u ≡ has xs u
unfolding has
has-reverse [] u = refl
has-reverse (x ∷ xs) u =
    rw (reverse-append (x ∷ []) xs, has-append (reverse xs) (x ∷ []) u)
      (ground (arith, has-reverse xs u))

length-reverse : (xs : List Text) → length (reverse xs) ≡ length xs
length-reverse [] = refl
length-reverse (x ∷ xs) =
    rw (reverse-append (x ∷ []) xs)
      (omega (arith, length-append (reverse xs) (x ∷ []), length-reverse xs))

-- A fresh uuid behind the 255 accepted before it.
push-IsWindow :
    (rest history : List Text) (u : Text)
    → rest ≡ reverse (take 255 history)
    → AreDistinct rest
    → has rest u ≡ false
    → IsWindow (record { seen = insert rest u; order = rest ++ u ∷ [] }) (u ∷ history)
unfolding insert
push-IsWindow rest history u e d fresh = record {
  same = rw fresh;
  last = rw e (sym (reverse-append (u ∷ []) (take 255 history)));
  distinct = AreDistinct-append rest u d fresh;
}

short_take : (n : ℕ) (xs : List Text) → length xs ≤ n → take (suc n) xs ≡ take n xs
short_take n xs h = take_all (suc n) xs (omega arith) ∙ sym (take_all n xs h)

remove_front : (x : Text) (rest : List Text) → has rest x ≡ false → remove (x ∷ rest) x ≡ rest
unfolding remove
remove_front x rest absent = rw (text_eq_refl x) (remove_absent rest x absent)

pop_oldest_lem :
    (q : DedupQueue) (x : Text) (rest : List Text)
    → q.seen ≡ q.order
    → q.order ≡ x ∷ rest
    → has rest x ≡ false
    → pop_oldest q q.order ≡ record { seen = rest; order = rest }
unfolding pop_oldest
pop_oldest_lem q x rest same order absent =
    ap (pop_oldest q) order
    ∙ ap (λ s. record { seen = remove s x; order = rest }) (same ∙ order)
    ∙ ap (λ s. record { seen = s; order = rest }) (remove_front x rest absent)

has-tail : (x u : Text) (rest : List Text) → has (x ∷ rest) u ≡ false → has rest u ≡ false
unfolding has
has-tail x u rest h = ground arith

module _ {q : DedupQueue} {history : List Text} (w : IsWindow q history) where
  length-order : length q.order ≡ length (take dedup_capacity history)
  length-order = ap length w.last ∙ length-reverse (take dedup_capacity history)

  has-seen : (u : Text) → has q.seen u ≡ has (take dedup_capacity history) u
  has-seen u = ap (λ s. has s u) (w.same ∙ w.last) ∙ has-reverse (take dedup_capacity history) u

  -- With 256 entries the oldest goes, from both containers.
  full-IsWindow :
      (u : Text)
      → has q.seen u ≡ false
      → 255 < length q.order
      → let p = pop_oldest q q.order in
        IsWindow (record { seen = insert p.seen u; order = p.order ++ u ∷ [] }) (u ∷ history)
  full-IsWindow u fresh full =
      let (x, e) = take-suc 255 history (omega (arith, length-order, length-take 256 history)) in
      let rest = reverse (take 255 history) in
      let order : q.order ≡ x ∷ rest =
        w.last ∙ ap reverse e ∙ reverse-append (take 255 history) (x ∷ []) in
      let distinct : AreDistinct (x ∷ rest) = subst AreDistinct order w.distinct in
      subst
        (λ p. IsWindow (record { seen = insert p.seen u; order = p.order ++ u ∷ [] }) (u ∷ history))
        (sym (pop_oldest_lem q x rest w.same order distinct.0))
        (push-IsWindow rest history u refl distinct.1
          (has-tail x u rest (ap (λ s. has s u) (sym (w.same ∙ order)) ∙ fresh)))

  -- With fewer nothing goes.
  room-IsWindow :
      (u : Text)
      → has q.seen u ≡ false
      → length q.order ≤ 255
      → IsWindow (record { seen = insert q.seen u; order = q.order ++ u ∷ [] }) (u ∷ history)
  room-IsWindow u fresh room = rw w.same (
      push-IsWindow q.order history u
        (w.last
          ∙ ap reverse
              (short_take 255 history (omega (arith, length-order, length-take 256 history))))
        w.distinct (rw w.same at fresh))

  pub record_uuid-IsWindow :
      (u : Text)
      → IsWindow (record_uuid q u).0 (record_spec history u).0
        × ((record_uuid q u).1 ≡ (record_spec history u).1)
  unfolding record_uuid record_spec
  record_uuid-IsWindow u = elim (Bool-cases (has q.seen u)) [
    | inl seen ↦ rw (seen, sym (has-seen u) ∙ seen) (w, refl)
    | inr fresh ↦
        rw (fresh, sym (has-seen u) ∙ fresh)
          (elim (Bool-cases (leb dedup_capacity (length q.seen))) [
            | inl full ↦ rw full (
              full-IsWindow u fresh
                  (omega (arith, leb-true 256 (length q.seen) full, ap length w.same)),
              refl,
            )
            | inr room ↦ rw room (
              room-IsWindow u fresh
                  (omega (arith, leb-false 256 (length q.seen) room, ap length w.same)),
              refl,
            )
          ])
  ]

  IsWindow-bounded : (length q.seen ≤ 256) × (length q.order ≤ 256)
  IsWindow-bounded = omega (arith, ap length w.same, length-order, length-take 256 history)

record_all-IsWindow :
    (us : List Text) (q : DedupQueue) (history : List Text)
    → IsWindow q history
    → IsWindow (record_all q us).0 (record_all_spec history us).0
      × ((record_all q us).1 ≡ (record_all_spec history us).1)
unfolding record_all record_all_spec
record_all-IsWindow [] q history w = (w, refl)
record_all-IsWindow (u ∷ us) q history w =
    let (w', same) = record_uuid-IsWindow w u in
    let (w'', rest) = record_all-IsWindow us (record_uuid q u).0 (record_spec history u).0 w' in
    (w'', ap₂ (λ b bs. b ∷ bs) same rest)

pub with_capacity-IsWindow : IsWindow with_capacity []
unfolding with_capacity
with_capacity-IsWindow = record { same = refl; last = refl; distinct = tt }

-- Whatever uuids arrive, a new queue answers as the specification: a uuid is a duplicate exactly if
-- it is among the last 256 that were accepted.
pub record_all-refines :
    (us : List Text) → (record_all with_capacity us).1 ≡ (record_all_spec [] us).1
record_all-refines us = (record_all-IsWindow us with_capacity [] with_capacity-IsWindow).1

-- However many uuids arrive, neither container of the queue ever has more than 256 entries, the
-- two have the same entries in the same order, and no uuid stands in them twice.
pub record_all-bounded :
    (us : List Text)
    → let q = (record_all with_capacity us).0 in
      (length q.seen ≤ 256) × (length q.order ≤ 256) × (q.seen ≡ q.order) × AreDistinct q.order
record_all-bounded us =
    let w = (record_all-IsWindow us with_capacity [] with_capacity-IsWindow).0 in
    let (seen, order) = IsWindow-bounded w in (seen, order, w.same, w.distinct)

pub record_uuid_seen :
    {q : DedupQueue} {history : List Text}
    → IsWindow q history
    → (u : Text) → has (take dedup_capacity history) u ≡ true
    → record_uuid q u ≡ (q, false)
unfolding record_uuid
record_uuid_seen w u h = rw (has-seen w u ∙ h)

-- What was just recorded is in the window.
pub has_newest :
    (history : List Text) (u : Text) → has (take dedup_capacity (record_spec history u).0) u ≡ true
unfolding record_spec
has_newest history u = elim (Bool-cases (has (take dedup_capacity history) u)) [
  | inl known ↦ rw known known
  | inr fresh ↦ rw fresh (unfold has in (ground (arith, text_eq_refl u)))
]
