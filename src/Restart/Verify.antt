-- ===== src/Restart/Verify.antt =====
-- `verify_active` of services/mqtt/handlers/restart.rs: a unit is polled until a window has passed.
-- `poll k` is the answer of the k-th poll; `instant 0` is the clock before the first poll, and
-- `instant (suc k)` the clock after the k-th. Instants and durations are numbers of nanoseconds.
pub mod Window
use uswarm_unitctl.Base.{
  ℕ, zero, suc, ◌+◌, Bool, true, false, not, ◌||◌, Option, none, some, ◌++◌, Text, codes, is_empty,
  text_eq, trim, leb, ◌==◌, if◌then◌else◌, Result, ok, err,
}

-- `std::process::Output`, its streams decoded; no code means that a signal ended the process.
pub record Output : Type 0 where
  pub code : Option ℕ
  pub stdout : Text
  pub stderr : Text

-- `out.status.success()`
abbrev pub is_success : Output → Bool
is_success out = elim out.code [ none ↦ false | some c ↦ c == 0 ]

unfoldable pub reported : Text → Text
reported state = if is_empty state then codes "unknown" else state

-- The body of the loop; `rest` is the result of the later rounds.
unfoldable pub after_poll :
    ℕ
    → Result Output Text
    → Bool
    → Option (ℕ × Result (Unit {0}) Text)
    → Option (ℕ × Result (Unit {0}) Text)
unfolding reported
after_poll k (err e) late rest =
    some (suc k, err (codes "failed to invoke systemctl is-active: " ++ e))
after_poll k (ok out) late rest =
    if not (is_success out) || not (text_eq (trim out.stdout) (codes "active"))
    then some (suc k, err (reported (trim out.stdout)))
    else if late
    then some (suc k, ok tt)
    else rest

module _ (poll : ℕ → Result Output Text) (instant : ℕ → ℕ) where
  unfoldable pub verify_loop : ℕ → ℕ → ℕ → Option (ℕ × Result (Unit {0}) Text)
  unfolding after_poll
  verify_loop deadline zero k = none
  verify_loop deadline (suc fuel) k =
      let rest = verify_loop deadline fuel (suc k) in
      after_poll k (poll k) (leb deadline (instant (suc k))) rest

  -- The number of polls and the result; `none` if the fuel, which counts the polls, runs out.
  unfoldable pub verify_active : ℕ → ℕ → Option (ℕ × Result (Unit {0}) Text)
  unfolding verify_loop
  verify_active window fuel = verify_loop (instant 0 + window) fuel 0
