-- ===== src/Mqtt/Transport.antt =====
-- services/mqtt/transport.rs: the task that drives the client's event loop, from its start on. The
-- polls of rumqttc, the clock and serde_json are parameters; `none` of the printer is an error.
pub mod Offline
mod Tests
use uswarm_unitctl.Base.{
  ℕ, true, Option, none, some, List, [], ◌∷◌, ◌++◌, Text, Result, ok, err, ◌>>=◌, ◌>>◌, codes,
}
use uswarm_unitctl.Messages.Telemetry.{NodeStatusEnvelope, OfflineStatusData, offline}
use uswarm_unitctl.Mqtt.Topics.{Node, TransportError, status_topic, validate_topic_segment}
use uswarm_unitctl.Mqtt.Processor.{Publish, at_least_once}

-- What the event loop answers to a poll, or the cancellation, each at an instant of the clock.
pub data PollEvent : Type 0 where
  conn_ack : ℕ → PollEvent
  incoming_publish : Text → Text → PollEvent
  other_packet : PollEvent
  outgoing : PollEvent
  connection_error : PollEvent
  cancelled : ℕ → PollEvent

pub data MqttEvent : Type 0 where
  connected : MqttEvent
  disconnected : MqttEvent
  message : Text → Text → MqttEvent

-- The parts of `MqttTransport` that the task reads.
pub record Transport : Type 0 where
  pub node : Node
  pub session_id : Text
  pub serialize : NodeStatusEnvelope → Option Text

-- `last_connected_at`, the events that were sent on the broadcast channel, and what was handed to the
-- client with `try_publish`.
pub record TransportState : Type 0 where
  pub last_connected_at : Option ℕ
  pub events : List MqttEvent
  pub published : List Publish

-- `MqttTransport::new` as far as it checks: the errors of the files are those of tls.rs.
unfoldable pub new_node : Result Text TransportError → Text → Result Node TransportError
unfolding validate_topic_segment
new_node cn env_prefix = cn >>= λ node_id.
    validate_topic_segment node_id (codes "node_id (certificate CN)")
    >> (validate_topic_segment env_prefix (codes "env_prefix")
        >> ok (record { env_prefix = env_prefix; node_id = node_id }))

abbrev pub offline_message : Transport → Option Text → List Publish
offline_message t none = []
offline_message t (some payload) =
    (record { topic = status_topic t.node; payload = payload; qos = at_least_once; retain = true })
    ∷ []

abbrev pub offline_status : Transport → ℕ → ℕ → NodeStatusEnvelope
offline_status t now last_online = record {
  ts = now;
  content = offline (record { last_session = t.session_id; last_online = last_online });
}

-- The offline status of a shutdown at `now`, if there was a connection.
unfoldable pub publish_offline : Transport → ℕ → Option ℕ → List Publish
unfolding status_topic
publish_offline t now none = []
publish_offline t now (some last_online) =
    offline_message t (t.serialize (offline_status t now last_online))

abbrev send_event : MqttEvent → TransportState → TransportState
send_event e s = record s { events = s.events ++ e ∷ [] }

-- `MqttTransport::run`; the loop is left at the cancellation.
unfoldable pub run_transport : Transport → List PollEvent → TransportState → TransportState
unfolding publish_offline
run_transport t [] s = s
run_transport t (conn_ack now ∷ polls) s =
    run_transport t polls (send_event connected (record s { last_connected_at = some now }))
run_transport t (incoming_publish topic payload ∷ polls) s =
    run_transport t polls (send_event (message topic payload) s)
run_transport t (other_packet ∷ polls) s = run_transport t polls s
run_transport t (outgoing ∷ polls) s = run_transport t polls s
run_transport t (connection_error ∷ polls) s = run_transport t polls (send_event disconnected s)
run_transport t (cancelled now ∷ polls) s = record s {
  published = s.published ++ publish_offline t now s.last_connected_at;
}
