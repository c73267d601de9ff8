-- ===== src/Restart/Handler/Tests.antt =====
-- A machine on which every program succeeds, and one on which the restart of the service fails.
use uswarm_unitctl.Base.{
  ◌*◌, ◌≡◌, ◌⊎◌, refl, true, none, some, [], Text, codes, Result, ok, arith, text_eq, trim,
}
use uswarm_unitctl.Messages.{
  CommandEnvelope, RestartTarget, camera, unitctl, restart, CommandResultData, restart_result,
}
use uswarm_unitctl.Handlers.Defs.{finished}
use uswarm_unitctl.Restart.Verify.{verify_active}
use uswarm_unitctl.Restart.Handler.{System, Machine, RestartHandler, handle_restart}
use uswarm_unitctl.Restart.Handler.Outcomes.{IsDone, handle_restart_sound}
use uswarm_unitctl.Restart.Handler.Ends.{IsPaced, handle_restart_ends}
use uswarm_unitctl.Restart.Handler.Pending.{IsPending, IsWithdrawn, handle_restart-IsPending}

abbrev healthy : System
healthy = record {
  run = λ n call. ok (record { code = some 0; stdout = codes "active"; stderr = [] });
  instant = λ n. 5 * n;
  create_dir_error = none;
  write_error = none;
  after_failed_write = [];
  can_remove = true;
}

-- Polls every 5 nanoseconds for 10.
abbrev quick_handler : RestartHandler
quick_handler = record { verify_window = 10; verify_interval = 5 }

abbrev idle_machine : Machine
idle_machine = record { files = []; calls = []; readings = 0; reboots = 0 }

abbrev request : RestartTarget → CommandEnvelope Unit
request target = record { uuid = codes "u1"; issued_at = 0; ttl_sec = 30; payload = restart target }

camera_restarted :
    (handle_restart healthy quick_handler (request camera) idle_machine).0
    ≡ finished (ok (restart_result camera))
unfolding handle_restart verify_active text_eq trim
camera_restarted = refl

handle_restart_sound_example :
    (target : RestartTarget) × ((request camera).payload ≡ restart target)
    × (restart_result camera ≡ restart_result target)
    × IsDone healthy quick_handler idle_machine
        (handle_restart healthy quick_handler (request camera) idle_machine).1
        target
handle_restart_sound_example =
    handle_restart_sound healthy quick_handler (request camera) idle_machine (restart_result camera)
      camera_restarted

healthy-IsPaced : IsPaced healthy quick_handler idle_machine
healthy-IsPaced = record {
  interval = λ h. omega arith;
  first_poll = omega arith;
  sleeps = λ j. omega arith;
}

camera_ne_unitctl : (request camera).payload ≡ restart unitctl → ⊥
camera_ne_unitctl h = cc

handle_restart_ends_example :
    (r : Result CommandResultData Text) × ((handle_restart healthy quick_handler
        (request camera)
        idle_machine).0
      ≡ finished r)
handle_restart_ends_example = handle_restart_ends healthy-IsPaced (request camera) camera_ne_unitctl

handle_restart-IsPending_example :
    IsPending (codes "u1") (handle_restart healthy quick_handler (request unitctl) idle_machine)
    ⊎ IsWithdrawn (handle_restart healthy quick_handler (request unitctl) idle_machine)
handle_restart-IsPending_example =
    handle_restart-IsPending healthy quick_handler (request unitctl) idle_machine refl refl refl
      refl
