-- ===== src/Restart/Handler.antt =====
-- `RestartHandler` of services/mqtt/handlers/restart.rs.
pub mod Outcomes
pub mod Ends
pub mod Pending
mod Tests
use uswarm_unitctl.Base.{
  ℕ, zero, suc, ◌+◌, ◌/◌, Bool, true, false, not, ◌&&◌, Option, none, some, List, [], ◌∷◌, ◌++◌,
  Text, codes, decimal, length, trim, is_some, if◌then◌else◌, Result, ok, err,
}
use uswarm_unitctl.Messages.{
  CommandEnvelope, CommandPayload, RestartTarget, camera, mavlink, modem, unitctl, reboot, restart,
  restart_result,
}
use uswarm_unitctl.Handlers.Defs.{HandlerExit, finished, parked, Handler}
use uswarm_unitctl.Restart.Files.{Files, write, delete}
use uswarm_unitctl.Restart.Verify.{Output, is_success, verify_active}

abbrev pub pending_file_name : Text
pending_file_name = codes "pending-restart-uuid"

-- The two durations of the handler that decide a result, in nanoseconds.
pub record RestartHandler : Type 0 where
  pub verify_window : ℕ
  pub verify_interval : ℕ

-- `RestartHandler::new`
unfoldable pub new_restart : RestartHandler
new_restart = record { verify_window = 10000000000; verify_interval = 500000000 }

-- What the operating system answers: to a program with its arguments as the n-th that is run, to the
-- n-th reading of the clock, and to the calls on the directory. The error of a write has the path in front, and a write that fails
-- may leave the directory in any state.
pub record System : Type 0 where
  pub run : ℕ → Text × List Text → Result Output Text
  pub instant : ℕ → ℕ
  pub create_dir_error : Option Text
  pub write_error : Option Text
  pub after_failed_write : Files
  pub can_remove : Bool

-- The files of `env_dir`, the programs that were run with their arguments, the number of readings of
-- the clock, and the number of reboots that wait for their delay.
pub record Machine : Type 0 where
  pub files : Files
  pub calls : List (Text × List Text)
  pub readings : ℕ
  pub reboots : ℕ

abbrev pub systemctl : Text → Text → Text × List Text
systemctl verb unit = (codes "systemctl", verb ∷ unit ∷ [])

-- `RestartHandler::unit_for`
unfoldable pub unit_for : RestartTarget → Option Text
unit_for camera = some (codes "camera")
unit_for mavlink = some (codes "mavlink")
unit_for modem = some (codes "modem-restart")
unit_for unitctl = none
unit_for reboot = none

-- `.expect(..)`, which is only called where there is a unit.
abbrev expected : Option Text → Text
expected none = []
expected (some unit) = unit

-- `{:?}` of an exit code.
unfoldable pub show_code : Option ℕ → Text
show_code none = codes "None"
show_code (some c) = codes "Some(" ++ (decimal c ++ codes ")")

unfoldable pub exit_error : Text → Output → Text
unfolding show_code
exit_error unit out =
    codes "systemctl restart "
    ++ (unit ++ (codes " exited with " ++ (show_code out.code ++ (codes ": " ++ trim out.stderr))))

abbrev pub polls : Text → ℕ → List (Text × List Text)
polls unit zero = []
polls unit (suc n) = systemctl (codes "is-active") unit ∷ polls unit n

-- After the verification of a unit, which polled it `n` times.
unfoldable pub verified :
    RestartTarget → Text → Option (ℕ × Result (Unit {0}) Text) → Machine → HandlerExit × Machine
verified target unit none m = (parked, m)
verified target unit (some (n, ok _)) m = (
  finished (ok (restart_result target)),
  record m { calls = m.calls ++ polls unit n; readings = m.readings + n + 1 },
)
verified target unit (some (n, err state)) m = (
  finished (err (codes "service did not stay active: " ++ state)),
  record m { calls = m.calls ++ polls unit n; readings = m.readings + n },
)

module _ (sys : System) where
  unfoldable pub verify_unit :
      RestartHandler → RestartTarget → Text → Machine → HandlerExit × Machine
  unfolding verified
  verify_unit h target unit m =
      verified target unit
        (verify_active (λ k. sys.run (length m.calls + k) (systemctl (codes "is-active") unit))
          (λ k. sys.instant (m.readings + k)) h.verify_window
          (h.verify_window / h.verify_interval + 2))
        m

  unfoldable pub after_restart :
      RestartHandler → RestartTarget → Text → Result Output Text → Machine → HandlerExit × Machine
  unfolding verify_unit exit_error
  after_restart h target unit (err e) m =
      (finished (err (codes "failed to invoke systemctl: " ++ e)), m)
  after_restart h target unit (ok out) m =
      if not (is_success out)
      then (finished (err (exit_error unit out)), m)
      else verify_unit h target unit m

  -- `RestartHandler::restart_unit`
  unfoldable pub restart_unit :
      RestartHandler → RestartTarget → Text → Machine → HandlerExit × Machine
  unfolding after_restart
  restart_unit h target unit m =
      after_restart h target unit (sys.run (length m.calls) (systemctl (codes "restart") unit))
        (record m { calls = m.calls ++ systemctl (codes "restart") unit ∷ [] })

  -- `delete_pending_file`
  unfoldable pub delete_pending_file : Machine → Machine
  delete_pending_file m =
      if sys.can_remove then record m { files = delete m.files pending_file_name } else m

  unfoldable pub after_self_restart : Result Output Text → Machine → HandlerExit × Machine
  unfolding delete_pending_file exit_error
  after_self_restart (err e) m =
      (finished (err (codes "failed to invoke systemctl: " ++ e)), delete_pending_file m)
  after_self_restart (ok out) m =
      if not (is_success out) && is_some out.code
      then (finished (err (exit_error (codes "unitctl") out)), delete_pending_file m)
      else (parked, m)

  -- From the writing of the pending file on.
  unfoldable pub record_restart : Text → Option Text → Machine → HandlerExit × Machine
  unfolding after_self_restart
  record_restart uuid (some e) m =
      (finished (err (codes "failed to write " ++ e)), record m { files = sys.after_failed_write })
  record_restart uuid none m =
      after_self_restart (sys.run (length m.calls) (systemctl (codes "restart") (codes "unitctl")))
        (record m {
          files = write m.files pending_file_name (uuid ++ 10 ∷ []);
          calls = m.calls ++ systemctl (codes "restart") (codes "unitctl") ∷ [];
        })

  -- `RestartHandler::exec_self_restart`
  unfoldable pub exec_self_restart : Text → Machine → HandlerExit × Machine
  unfolding record_restart
  exec_self_restart uuid m = elim sys.create_dir_error [
    | some e ↦ (finished (err (codes "failed to create env_dir: " ++ e)), m)
    | none ↦ record_restart uuid sys.write_error m
  ]

  -- `RestartHandler::schedule_reboot`; the reboot itself runs after the delay in a task of its own.
  unfoldable pub schedule_reboot : Machine → HandlerExit × Machine
  schedule_reboot m = (finished (ok (restart_result reboot)), record m { reboots = m.reboots + 1 })

  unfoldable pub restart_target :
      RestartHandler → RestartTarget → Text → Machine → HandlerExit × Machine
  unfolding unit_for restart_unit exec_self_restart schedule_reboot
  restart_target h camera uuid m = restart_unit h camera (expected (unit_for camera)) m
  restart_target h mavlink uuid m = restart_unit h mavlink (expected (unit_for mavlink)) m
  restart_target h modem uuid m = restart_unit h modem (expected (unit_for modem)) m
  restart_target h unitctl uuid m = exec_self_restart uuid m
  restart_target h reboot uuid m = schedule_reboot m

  unfoldable pub dispatch_restart :
      {V : Type 0} → RestartHandler → CommandPayload V → Text → Machine → HandlerExit × Machine
  unfolding restart_target
  dispatch_restart h (restart target) uuid m = restart_target h target uuid m
  dispatch_restart h _ uuid m = (finished (err (codes "expected Restart payload")), m)

  -- `RestartHandler::handle`
  unfoldable pub handle_restart : {V : Type 0} → RestartHandler → Handler V Machine
  unfolding dispatch_restart
  handle_restart h e m = dispatch_restart h e.payload e.uuid m
