-- ===== src/Startup/Tests.antt =====
-- main.rs: a start with the sample configuration, whose connection comes before the last step.
use uswarm_unitctl.Base.{◌≡◌, refl, true, some, List, [], ◌∷◌, codes, ok}
use uswarm_unitctl.Config.Sample.{sample_config}
use uswarm_unitctl.Net.{InterfaceAddress, ipv4}
use uswarm_unitctl.Mqtt.Transport.{MqttEvent}
use uswarm_unitctl.Startup.{
  signal_task, modem_task, mavlink_env_run, camera_env_run, sensor_manager_run, drone_run,
  sniffer_run, telemetry_run, processor_new, commands_registered, commands_subscribed,
  processor_run, status_publisher_new, status_publisher_run, restart_completion_new,
  restart_completion_run, transport_run, mqtt_telemetry_run, MainExit, main,
}
use uswarm_unitctl.Startup.Bus.{Moment, step, event, happen, silent}

abbrev local : InterfaceAddress
local = record { interface_name = codes "eth0"; address = some (ipv4 (codes "10.0.0.2")) }

abbrev started : MainExit
started = main (λ s. ok sample_config) (ok []) (ok (local ∷ [])) true (ok (codes "drone-1"))

abbrev moments : List Moment
moments =
    event MqttEvent.disconnected
    ∷ step signal_task
    ∷ step modem_task
    ∷ step mavlink_env_run
    ∷ step camera_env_run
    ∷ step sensor_manager_run
    ∷ step drone_run
    ∷ step sniffer_run
    ∷ step telemetry_run
    ∷ step processor_new
    ∷ step commands_registered
    ∷ step (commands_subscribed true)
    ∷ step processor_run
    ∷ step status_publisher_new
    ∷ step status_publisher_run
    ∷ step restart_completion_new
    ∷ step restart_completion_run
    ∷ step transport_run
    ∷ event MqttEvent.connected
    ∷ step mqtt_telemetry_run
    ∷ event (MqttEvent.message (codes "t") [])
    ∷ []

two_heard :
    (happen moments silent).status
    ≡ some (MqttEvent.connected ∷ MqttEvent.message (codes "t") [] ∷ [])
unfolding happen
two_heard = refl
