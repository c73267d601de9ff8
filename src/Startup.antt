-- ===== src/Startup.antt =====
-- main.rs: what is created and spawned between the start of the process and its wait for a signal. The
-- parsers of the command line and of TOML and the certificates are parameters.
pub mod Bus
pub mod Receivers
mod Tests
use uswarm_unitctl.Base.{
  ℕ, Bool, true, false, Option, none, some, List, [], ◌∷◌, ◌++◌, Text, if◌then◌else◌, Result, ok,
  err,
}
use uswarm_unitctl.Float.{from_secs_f64}
use uswarm_unitctl.Config.{Config, ConfigError, validate}
use uswarm_unitctl.Net.{InterfaceAddress, resolve_ipv4}
use uswarm_unitctl.Sensors.Manager.{new_manager}
use uswarm_unitctl.Mqtt.Topics.{Node, TransportError}
use uswarm_unitctl.Mqtt.Transport.{new_node}

-- The steps of `main` that create a component, give it something or spawn its tasks; the one of
-- `subscribe_commands` with whether the client takes the request.
pub data Step : Type 0 where
  signal_task modem_task mavlink_env_run camera_env_run sensor_manager_run drone_run : Step
  sniffer_run telemetry_run processor_new commands_registered : Step
  commands_subscribed : Bool → Step
  processor_run status_publisher_new status_publisher_run restart_completion_new : Step
  restart_completion_run transport_run mqtt_telemetry_run : Step

-- `exit(1)`, a panic of `main` after the steps, or the wait for the shutdown after them.
pub data MainExit : Type 0 where
  failed_start : MainExit
  panicked : List Step → MainExit
  serving : List Step → MainExit

-- The error of reading or parsing the file, or that of the validation.
pub data LoadError : Type 0 where
  unreadable : Text → LoadError
  unparsable : Text → LoadError
  invalid : ConfigError → LoadError

abbrev validated : Config → Result (Unit {0}) ConfigError → Result Config LoadError
validated config (ok _) = ok config
validated config (err e) = err (invalid e)

abbrev parsed : Result Config Text → Result Config LoadError
parsed (err e) = err (unparsable e)
parsed (ok config) = validated config (validate config)

-- `load_config`, on the content of the file.
unfoldable pub load_config :
    (Text → Result Config Text) → Result Text Text → Result Config LoadError
unfolding validate
load_config parse (err e) = err (unreadable e)
load_config parse (ok content) = parsed (parse content)

-- What is spawned before the sensors are created.
abbrev first_tasks : List Step
first_tasks = signal_task ∷ modem_task ∷ mavlink_env_run ∷ camera_env_run ∷ []

abbrev tasks : List Step
tasks = first_tasks ++ sensor_manager_run ∷ drone_run ∷ sniffer_run ∷ telemetry_run ∷ []

-- From the command processor to the task of the transport.
abbrev transport_steps : Bool → List Step
transport_steps taken =
    processor_new
    ∷ commands_registered
    ∷ commands_subscribed taken
    ∷ processor_run
    ∷ status_publisher_new
    ∷ status_publisher_run
    ∷ restart_completion_new
    ∷ restart_completion_run
    ∷ transport_run
    ∷ []

-- `Duration::from_secs_f64(telemetry_interval_s)` panics when the transport runs already.
abbrev with_interval : Bool → Option ℕ → MainExit
with_interval taken none = panicked (tasks ++ transport_steps taken)
with_interval taken (some nanos) =
    serving (tasks ++ (transport_steps taken ++ mqtt_telemetry_run ∷ []))

abbrev with_transport : Config → Bool → Result Node TransportError → MainExit
with_transport config taken (ok node) =
    with_interval taken (from_secs_f64 config.mqtt.telemetry_interval_s)
with_transport config taken (err e) = serving tasks

-- `if ctx.config.mqtt.enabled { match MqttTransport::new(..) }`
unfoldable pub start_mqtt : Config → Bool → Result Text TransportError → MainExit
unfolding new_node
start_mqtt config taken cn =
    if config.mqtt.enabled
    then with_transport config taken (new_node cn config.mqtt.env_prefix)
    else serving tasks

-- The tasks of a configuration whose interface has an address.
unfoldable pub start_tasks : Config → Bool → Result Text TransportError → MainExit
unfolding start_mqtt
start_tasks config taken cn = elim (new_manager config.sensors config.general.interface) [
  | none ↦ panicked first_tasks
  | some sensors ↦ start_mqtt config taken cn
]

abbrev resolved : Config → Bool → Result Text TransportError → Bool → MainExit
resolved config taken cn true = start_tasks config taken cn
resolved config taken cn false = failed_start

abbrev is_ok : {A E : Type 0} → Result A E → Bool
is_ok (ok a) = true
is_ok (err e) = false

abbrev loaded :
    Result Config LoadError
    → Result (List InterfaceAddress) Text
    → Bool
    → Result Text TransportError
    → MainExit
loaded (err e) addresses taken cn = failed_start
loaded (ok config) addresses taken cn =
    resolved config taken cn (is_ok (resolve_ipv4 addresses config.general.interface))

-- `main`; `taken` says whether the client takes the first subscription, and `cn` is the common name of
-- its certificate.
unfoldable pub main :
    (Text → Result Config Text)
    → Result Text Text
    → Result (List InterfaceAddress) Text
    → Bool
    → Result Text TransportError
    → MainExit
unfolding load_config start_tasks resolve_ipv4
main parse content addresses taken cn = loaded (load_config parse content) addresses taken cn
