-- ===== src/Mqtt/Publishers/Tests.antt =====
-- services/mqtt/status.rs and services/mqtt/telemetry.rs: two connections, and a tick with one reading.
use uswarm_unitctl.Base.{◌≡◌, ◌≢◌, none, some, List, [], ◌∷◌, codes, All, length, err}
use uswarm_unitctl.Messages.Telemetry.{NodeStatusEnvelope, TelemetryEnvelope, default_ping}
use uswarm_unitctl.Mqtt.Topics.{Node}
use uswarm_unitctl.Mqtt.Publishers.{
  StatusPublisher, StatusEvent, connected, message, lagged, cancelled, run_status, SensorValues,
  publish_telemetry,
}
use uswarm_unitctl.Mqtt.Publishers.Topics.{
  IsStatus, IsNoCommand, IsTelemetry, announcements, available, run_status-once,
  publish_telemetry-once, Carries, readings,
}

abbrev drone : Node
drone = record { env_prefix = codes "test"; node_id = codes "drone-1" }

abbrev sample_publisher : StatusPublisher
sample_publisher = record {
  node = drone;
  session_id = codes "a8f2c1";
  version = codes "0.1.0";
  interface = codes "eth0";
  clock = λ n. n;
  addresses = λ n. err (codes "EPERM");
  serialize = λ e. some (codes "{}");
}

printed_status : (e : NodeStatusEnvelope) → some (codes "{}") ≢ none
printed_status e h = cc

printed_envelope : (e : TelemetryEnvelope) → some (codes "{}") ≢ none
printed_envelope e h = cc

abbrev two_connections : List StatusEvent
two_connections = connected ∷ message ∷ lagged 3 ∷ cancelled ∷ connected ∷ []

run_status-once_example :
    (length (run_status sample_publisher 0 two_connections) ≡ announcements two_connections)
    × All
        (λ m. IsStatus drone m × IsNoCommand drone m)
        (run_status sample_publisher 0 two_connections)
run_status-once_example = run_status-once sample_publisher printed_status 0 two_connections

abbrev only_ping : SensorValues
only_ping = record { lte = none; ping = some default_ping; system = none }

publish_telemetry-once_example :
    (length (publish_telemetry drone (λ e. some (codes "{}")) 5 only_ping) ≡ available only_ping)
    × All (IsTelemetry drone) (publish_telemetry drone (λ e. some (codes "{}")) 5 only_ping)
    × Carries drone
        (λ e. some (codes "{}"))
        5
        (readings only_ping)
        (publish_telemetry drone (λ e. some (codes "{}")) 5 only_ping)
publish_telemetry-once_example =
    publish_telemetry-once drone (λ e. some (codes "{}")) printed_envelope 5 only_ping
