-- ===== src/Restart/Handler/Ends.antt =====
-- The restart handler ends.
use mathlib.Core.Path.{subst}
use uswarm_unitctl.Base.{
  ℕ, suc, ◌+◌, ◌≤◌, ◌≡◌, ◌≢◌, refl, ap, inl, inr, Option, none, some, List, Text, codes, length,
  Result, ok, err, arith, Bool-cases,
}
use uswarm_unitctl.Messages.{
  CommandEnvelope, CommandPayload, RestartTarget, camera, mavlink, modem, unitctl, reboot, restart,
  CommandResultData,
}
use uswarm_unitctl.Handlers.Defs.{HandlerExit, finished, parked}
use uswarm_unitctl.Restart.Verify.{Output, is_success}
use uswarm_unitctl.Restart.Verify.Window.{verify_active_ends}
use uswarm_unitctl.Restart.Handler.{
  RestartHandler, System, Machine, unit_for, verified, verify_unit, after_restart, restart_unit,
  restart_target, dispatch_restart, schedule_reboot, handle_restart, systemctl,
}

finished_ne_parked : {r : Result CommandResultData Text} → finished r ≡ parked → ⊥
finished_ne_parked h = cc

answered :
    (exit : HandlerExit) → exit ≢ parked → (r : Result CommandResultData Text) × (exit ≡ finished r)
answered (finished r) h = (r, refl)
answered parked h = absurd (h refl)

verified_ends :
    (target : RestartTarget) (unit : Text) (v : Option (ℕ × Result (Unit {0}) Text)) (m : Machine)
    → v ≢ none
    → (verified target unit v m).0 ≢ parked
unfolding verified
verified_ends target unit none m h e = h refl
verified_ends target unit (some (n, ok u)) m h e = finished_ne_parked e
verified_ends target unit (some (n, err x)) m h e = finished_ne_parked e

-- From one reading of the clock to the next a poll and a sleep go by.
pub record IsPaced (sys : System) (h : RestartHandler) (m : Machine) : Type 0 where
  pub interval : h.verify_interval ≢ 0
  pub first_poll : sys.instant m.readings ≤ sys.instant (m.readings + 1)
  pub sleeps :
      (j : ℕ)
      → sys.instant (m.readings + suc j) + h.verify_interval
        ≤ sys.instant (m.readings + suc (suc j))

module _ {sys : System} {h : RestartHandler} {m : Machine} (paced : IsPaced sys h m) where
  verify_unit_ends :
      (target : RestartTarget) (unit : Text) (calls : List (Text × List Text))
      → (verify_unit sys h target unit (record m { calls = calls })).0 ≢ parked
  unfolding verify_unit
  verify_unit_ends target unit calls = verified_ends target unit _ _ (
      verify_active_ends (λ k. sys.run (length calls + k) (systemctl (codes "is-active") unit))
        (λ k. sys.instant (m.readings + k)) h.verify_window h.verify_interval paced.interval
        (subst (λ r. sys.instant r ≤ sys.instant (m.readings + 1)) (omega arith) paced.first_poll)
        paced.sleeps)

  after_restart_ends :
      (target : RestartTarget) (unit : Text) (calls : List (Text × List Text))
      (result : Result Output Text)
      → (after_restart sys h target unit result (record m { calls = calls })).0 ≢ parked
  unfolding after_restart
  after_restart_ends target unit calls (err x) = finished_ne_parked
  after_restart_ends target unit calls (ok out) = elim (Bool-cases (is_success out)) [
    | inr failed ↦ rw failed finished_ne_parked
    | inl good ↦ rw good (verify_unit_ends target unit calls)
  ]

  restart_unit_ends :
      (target : RestartTarget) (unit : Text) → (restart_unit sys h target unit m).0 ≢ parked
  unfolding restart_unit
  restart_unit_ends target unit =
      after_restart_ends target unit _ (sys.run (length m.calls) (systemctl (codes "restart") unit))

  target_ends :
      (target : RestartTarget) (uuid : Text)
      → target ≢ unitctl
      → (restart_target sys h target uuid m).0 ≢ parked
  unfolding restart_target unit_for schedule_reboot
  target_ends camera uuid other = restart_unit_ends camera (codes "camera")
  target_ends mavlink uuid other = restart_unit_ends mavlink (codes "mavlink")
  target_ends modem uuid other = restart_unit_ends modem (codes "modem-restart")
  target_ends unitctl uuid other = absurd (other refl)
  target_ends reboot uuid other = finished_ne_parked

  dispatch_ends :
      {V : Type 0} (payload : CommandPayload V) (uuid : Text)
      → payload ≢ restart unitctl
      → (dispatch_restart sys h payload uuid m).0 ≢ parked
  unfolding dispatch_restart
  dispatch_ends (restart target) uuid other = target_ends target uuid (λ e. other (ap restart e))
  dispatch_ends _ uuid other = finished_ne_parked

  -- With an interval above 0 and a clock that goes on by it while the handler sleeps and does not
  -- go back at the first poll, a request for anything but a restart of the service itself is
  -- answered, whatever the programs that are run answer.
  pub handle_restart_ends :
      {V : Type 0} (e : CommandEnvelope V)
      → e.payload ≢ restart unitctl
      → (r : Result CommandResultData Text) × ((handle_restart sys h e m).0 ≡ finished r)
  unfolding handle_restart
  handle_restart_ends e other = answered _ (dispatch_ends e.payload e.uuid other)
