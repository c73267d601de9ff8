-- ===== src/Restart/Verify/Window.antt =====
-- What the polling of a unit shows.
use mathlib.Core.Path.{subst}
use native.Mathlib.Nat.{suc-mul, div-add-mod', mod-lt}
use uswarm_unitctl.Base.{
  ℕ, zero, suc, ◌+◌, ◌*◌, ◌≤◌, ◌<◌, ◌≡◌, ◌≢◌, refl, sym, ap, ◌⊎◌, ◌∙◌, leb-true, leb-false, ◌/◌,
  Bool, true, false, ◌&&◌, inl, inr, Option, none, some, Text, codes, text_eq, trim, leb,
  if◌then◌else◌, Result, ok, err, arith, Bool-cases,
}
use uswarm_unitctl.Restart.Verify.{
  Output, is_success, reported, after_poll, verify_loop, verify_active,
}

-- A poll that found the unit running.
abbrev pub is_active : Result Output Text → Bool
is_active (err e) = false
is_active (ok out) = is_success out && text_eq (trim out.stdout) (codes "active")

after_poll_active :
    (k : ℕ) (answer : Result Output Text) (late : Bool) (rest : Option (ℕ × Result (Unit {0}) Text))
    → is_active answer ≡ true
    → after_poll k answer late rest ≡ (if late then some (suc k, ok tt) else rest)
unfolding after_poll
after_poll_active k (err e) late rest h = ground arith
after_poll_active k (ok out) late rest h = ground arith

-- The polling goes on only after a poll that found the unit running before the deadline.
after_poll-none :
    (k : ℕ) (answer : Result Output Text) (late : Bool) (rest : Option (ℕ × Result (Unit {0}) Text))
    → after_poll k answer late rest ≡ none
    → (late ≡ false) × (rest ≡ none)
unfolding after_poll
after_poll-none k (err e) late rest h = ground arith
after_poll-none k (ok out) late rest h = ground arith

-- A poll that did not find it running ends the loop.
after_poll_down :
    (k : ℕ) (answer : Result Output Text) (late : Bool) (rest : Option (ℕ × Result (Unit {0}) Text))
    → is_active answer ≡ false
    → (e : Text) × (after_poll k answer late rest ≡ some (suc k, err e))
unfolding after_poll
after_poll_down k (err e) late rest h = (_, refl)
after_poll_down k (ok out) late rest h = (reported (trim out.stdout), ground arith)

abbrev Outcome : Type 0
Outcome = ℕ × Result (Unit {0}) Text

first : {a b : Outcome} → some a ≡ some b → a.0 ≡ b.0
first h = cc

second : {a b : Outcome} → some a ≡ some b → a.1 ≡ b.1
second h = cc

ok_ne_err : {A B : Type 0} {a : A} {b : B} → ok a ≡ err b → ⊥
ok_ne_err h = cc

here_or_later : (k j : ℕ) → k ≤ j → (k ≡ j) ⊎ (suc k ≤ j)
here_or_later k j h = ground arith

module _ (poll : ℕ → Result Output Text) (instant : ℕ → ℕ) where
  loop_sound :
      (deadline fuel k n : ℕ) (r : Result (Unit {0}) Text)
      → verify_loop poll instant deadline fuel k ≡ some (n, r)
      → r ≡ ok tt
      → (k < n) × (deadline ≤ instant n) × ((j : ℕ) → k ≤ j → j < n → is_active (poll j) ≡ true)
  unfolding verify_loop
  loop_sound deadline zero k n r h good = ground arith
  loop_sound deadline (suc fuel) k n r h good = elim (Bool-cases (is_active (poll k))) [
    | inr down ↦
        let (e, stop) = after_poll_down k (poll k) (leb deadline (instant (suc k))) _ down in
        absurd (ok_ne_err (sym good ∙ sym (second (sym stop ∙ h))))
    | inl up ↦
        let h' = sym (after_poll_active k (poll k) (leb deadline (instant (suc k))) _ up) ∙ h in
        elim (Bool-cases (leb deadline (instant (suc k)))) [
          | inl late ↦
              let n_is : suc k ≡ n = first (rw late at h') in
              (
                omega (arith, n_is),
                subst (λ m. deadline ≤ instant m) n_is (leb-true _ _ late),
                λ j from before.
                    subst (λ i. is_active (poll i) ≡ true) (omega (arith, n_is, from, before)) up,
              )
          | inr early ↦
              let (a, b, c) = loop_sound deadline fuel (suc k) n r (rw early at h') good in
              (
                omega (arith, a),
                b,
                λ j from before. elim (here_or_later k j from) [
                  | inl same ↦ subst (λ i. is_active (poll i) ≡ true) same up
                  | inr later ↦ c j later before
                ],
              )
        ]
  ]

  loop_ends :
      (deadline interval fuel k : ℕ)
      → ((j : ℕ) → instant (suc j) + interval ≤ instant (suc (suc j)))
      → deadline ≤ instant (suc k) + fuel * interval
      → verify_loop poll instant deadline (suc fuel) k ≢ none
  unfolding verify_loop
  loop_ends deadline interval zero k sleeps near h =
      let (early, rest) = after_poll-none k (poll k) (leb deadline (instant (suc k))) _ h in
      absurd (omega (arith, leb-false _ _ early, near))
  loop_ends deadline interval (suc fuel) k sleeps near h =
      let (early, rest) = after_poll-none k (poll k) (leb deadline (instant (suc k))) _ h in
      loop_ends deadline interval fuel (suc k) sleeps
        (omega (arith, sleeps k, near, suc-mul fuel interval)) rest

  -- A unit is said to have stayed active only if every poll found it active, from the first to one
  -- that ended when the window had passed.
  pub verify_active_sound :
      (window fuel n : ℕ)
      → verify_active poll instant window fuel ≡ some (n, ok tt)
      → (0 < n) × (instant 0 + window ≤ instant n) × ((j : ℕ) → j < n → is_active (poll j) ≡ true)
  unfolding verify_active
  verify_active_sound window fuel n h =
      let (a, b, c) = loop_sound (instant 0 + window) fuel 0 n (ok tt) h refl in
      (a, b, λ j before. c j (omega arith) before)

  -- The polling ends, whatever the polls answer, after `window / interval + 2` polls at most, if the
  -- clock goes on by `interval` at least from poll to poll and does not go back at the first one.
  pub verify_active_ends :
      (window interval : ℕ)
      → interval ≢ 0
      → instant 0 ≤ instant 1
      → ((j : ℕ) → instant (suc j) + interval ≤ instant (suc (suc j)))
      → verify_active poll instant window (window / interval + 2) ≢ none
  unfolding verify_active
  verify_active_ends window interval positive first_poll sleeps h =
      let fuel = window / interval in
      loop_ends (instant 0 + window) interval (fuel + 1) 0 sleeps
        (omega (
          arith,
          first_poll,
          suc-mul fuel interval,
          div-add-mod' window interval,
          mod-lt window {m = interval} (omega arith),
        ))
        (ap (λ f. verify_loop poll instant (instant 0 + window) f 0)
            {x = suc (window / interval + 1)} (omega arith)
          ∙ h)
