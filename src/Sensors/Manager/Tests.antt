-- ===== src/Sensors/Manager/Tests.antt =====
-- A configuration that is accepted and cannot be started.
use uswarm_unitctl.Base.{◌≡◌, refl, inl, false, arith, none, some, [], ◌∷◌, codes}
use uswarm_unitctl.Float.{scaled_up, from_secs_f64}
use uswarm_unitctl.Config.Sample.{sample_sensors, endless_config, endless_accepted}
use uswarm_unitctl.Sensors.Manager.{ping, lte, new_manager}
use uswarm_unitctl.Sensors.Manager.Starts.{new_manager_panics}

sample_starts :
    new_manager sample_sensors (codes "eth0")
    ≡ some (
        ping (codes "10.45.0.2") (codes "eth0") 1000000000
        ∷ lte 2500000000 (scaled_up false 30 0)
        ∷ [])
unfolding new_manager from_secs_f64
sample_starts = refl

new_manager_panics_example : new_manager endless_config.sensors (codes "eth0") ≡ none
new_manager_panics_example =
    (new_manager_panics endless_config (codes "eth0") endless_accepted).1 (inl (refl, omega arith))
