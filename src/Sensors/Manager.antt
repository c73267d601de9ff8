-- ===== src/Sensors/Manager.antt =====
-- `SensorManager::new` of sensors/mod.rs with the constructors of the three sensors. A constructor
-- panics where `Duration::from_secs_f64` does: the result is then `none`.
pub mod Starts
mod Tests
use uswarm_unitctl.Base.{ℕ, Bool, Option, none, some, List, [], ◌∷◌, ◌++◌, Text, if◌then◌else◌}
use uswarm_unitctl.Float.{F64, from_secs_f64}
use uswarm_unitctl.Config.{PingSensorConfig, LteSensorConfig, SystemSensorConfig, SensorsConfig}

-- A sensor with its interval in nanoseconds.
pub data Sensor : Type 0 where
  ping : Text → Text → ℕ → Sensor
  lte : ℕ → F64 → Sensor
  system : ℕ → Sensor

-- `config.interval_s.unwrap_or(default_interval)`
abbrev pub chosen_interval : Option F64 → F64 → F64
chosen_interval none default = default
chosen_interval (some v) default = v

abbrev with_interval : Option ℕ → (ℕ → Sensor) → Option Sensor
with_interval none make = none
with_interval (some nanos) make = some (make nanos)

-- `PingSensor::new`
unfoldable pub new_ping : PingSensorConfig → Text → F64 → Option Sensor
new_ping config interface default =
    with_interval (from_secs_f64 (chosen_interval config.interval_s default))
      (ping config.host interface)

-- `LteSensor::new`
unfoldable pub new_lte : LteSensorConfig → F64 → Option Sensor
new_lte config default =
    with_interval (from_secs_f64 (chosen_interval config.interval_s default))
      (λ nanos. lte nanos config.neighbor_expiry_s)

-- `SystemSensor::new`
unfoldable pub new_system : SystemSensorConfig → F64 → Option Sensor
new_system config default =
    with_interval (from_secs_f64 (chosen_interval config.interval_s default)) system

-- `if enabled { sensors.push(..) }`
abbrev push_if : Bool → Option Sensor → Option (List Sensor) → Option (List Sensor)
push_if enabled sensor none = none
push_if enabled sensor (some sensors) =
    if enabled
    then elim sensor [ none ↦ none | some s ↦ some (sensors ++ s ∷ []) ]
    else some sensors

-- `SensorManager::new`
unfoldable pub new_manager : SensorsConfig → Text → Option (List Sensor)
unfolding new_ping new_lte new_system
new_manager config interface =
    push_if config.system.enabled (new_system config.system config.default_interval_s) (
      push_if config.lte.enabled (new_lte config.lte config.default_interval_s) (
        push_if config.ping.enabled (new_ping config.ping interface config.default_interval_s)
          (some [])))
