-- ===== src/Mqtt/Transport/Tests.antt =====
-- services/mqtt/transport.rs: a shutdown after two connections.
use uswarm_unitctl.Base.{◌≡◌, none, some, List, [], ◌∷◌, ◌++◌, codes}
use uswarm_unitctl.Mqtt.Transport.{
  PollEvent, conn_ack, connection_error, cancelled, Transport, TransportState, run_transport,
}
use uswarm_unitctl.Mqtt.Transport.Offline.{
  farewell, shutdown_at, last_connection, run_transport-offline,
}

abbrev sample_transport : Transport
sample_transport = record {
  node = record { env_prefix = codes "test"; node_id = codes "drone-1" };
  session_id = codes "a8f2c1";
  serialize = λ e. some (codes "{}");
}

abbrev started : TransportState
started = record { last_connected_at = none; events = []; published = [] }

abbrev reconnected : List PollEvent
reconnected = conn_ack 5 ∷ connection_error ∷ conn_ack 9 ∷ cancelled 20 ∷ conn_ack 21 ∷ []

run_transport-offline_example :
    (run_transport sample_transport reconnected started).published
    ≡ [] ++ farewell sample_transport (shutdown_at reconnected) (last_connection none reconnected)
run_transport-offline_example = run_transport-offline sample_transport reconnected started
