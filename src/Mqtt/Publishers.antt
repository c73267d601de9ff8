-- ===== src/Mqtt/Publishers.antt =====
-- services/mqtt/status.rs and services/mqtt/telemetry.rs: what the node publishes of itself. The
-- publications are those that are handed to the transport; an error of it is only logged. The
-- serializers are serde_json's, `none` being an error.
pub mod Topics
mod Tests
use mathlib.Core.Option
use uswarm_unitctl.Base.{
  ℕ, ◌+◌, zero, suc, Bool, true, false, Option, none, some, List, [], ◌∷◌, ◌++◌, Text, codes,
  Result, ok, err,
}
use uswarm_unitctl.Net.{InterfaceAddress, ResolveIpError, resolve_ipv4}
use uswarm_unitctl.Messages.Telemetry.{
  TelemetryEnvelope, TelemetryData, lte_data, ping_data, system_data, lte_telemetry, LteReading,
  PingTelemetry, SystemTelemetry, NodeStatusEnvelope, OnlineStatusData, online,
}
use uswarm_unitctl.Mqtt.Topics.{Node, status_topic, telemetry_topic}
use uswarm_unitctl.Mqtt.Processor.{Publish, at_least_once, at_most_once}

-- What the event loop's channel or the cancellation gives to the status publisher; `message` is any
-- event but a connection.
pub data StatusEvent : Type 0 where
  connected : StatusEvent
  message : StatusEvent
  lagged : ℕ → StatusEvent
  channel_closed : StatusEvent
  cancelled : StatusEvent

-- The parts of `StatusPublisher` and what surrounds it: the clock and `getifaddrs` at the n-th
-- publication.
pub record StatusPublisher : Type 0 where
  pub node : Node
  pub session_id : Text
  pub version : Text
  pub interface : Text
  pub clock : ℕ → ℕ
  pub addresses : ℕ → Result (List InterfaceAddress) Text
  pub serialize : NodeStatusEnvelope → Option Text

abbrev pub ip_or_none : Result Text ResolveIpError → Option Text
ip_or_none (ok ip) = some ip
ip_or_none (err e) = none

unfoldable pub online_status : StatusPublisher → ℕ → NodeStatusEnvelope
unfolding resolve_ipv4
online_status p n = record {
  ts = p.clock n;
  content = online (record {
    session = p.session_id;
    version = p.version;
    ip = ip_or_none (resolve_ipv4 (p.addresses n) p.interface);
  });
}

abbrev status_message : StatusPublisher → Option Text → List Publish
status_message p none = []
status_message p (some payload) =
    (record { topic = status_topic p.node; payload = payload; qos = at_least_once; retain = true })
    ∷ []

-- `StatusPublisher::publish_online`, for the n-th time.
unfoldable pub publish_online : StatusPublisher → ℕ → List Publish
unfolding online_status status_topic
publish_online p n = status_message p (p.serialize (online_status p n))

-- The task of `StatusPublisher::run`, after `n` calls of `publish_online`.
unfoldable pub run_status : StatusPublisher → ℕ → List StatusEvent → List Publish
unfolding publish_online
run_status p n [] = []
run_status p n (connected ∷ events) = publish_online p n ++ run_status p (suc n) events
run_status p n (message ∷ events) = run_status p n events
run_status p n (lagged skipped ∷ events) = publish_online p n ++ run_status p (suc n) events
run_status p n (channel_closed ∷ events) = []
run_status p n (cancelled ∷ events) = []

-- The readings that the context has.
pub record SensorValues : Type 0 where
  pub lte : Option LteReading
  pub ping : Option PingTelemetry
  pub system : Option SystemTelemetry

module _ (node : Node) (serialize : TelemetryEnvelope → Option Text) where
  abbrev telemetry_message : Text → Option Text → List Publish
  telemetry_message name none = []
  telemetry_message name (some payload) =
      (record {
        topic = telemetry_topic node name;
        payload = payload;
        qos = at_most_once;
        retain = false;
      })
      ∷ []

  -- `TelemetryPublisher::publish_one`
  unfoldable pub publish_one : Text → TelemetryEnvelope → List Publish
  unfolding telemetry_topic
  publish_one name envelope = telemetry_message name (serialize envelope)

  abbrev publish_data : ℕ → Text → Option TelemetryData → List Publish
  publish_data ts name none = []
  publish_data ts name (some content) = publish_one name (record { ts = ts; content = content })

  -- `TelemetryPublisher::publish_telemetry`, at the time `ts`.
  unfoldable pub publish_telemetry : ℕ → SensorValues → List Publish
  unfolding publish_one lte_telemetry
  publish_telemetry ts v =
      publish_data ts (codes "lte") (Option.map (λ r. lte_data (lte_telemetry r)) v.lte)
      ++ (publish_data ts (codes "ping") (Option.map ping_data v.ping)
          ++ publish_data ts (codes "system") (Option.map system_data v.system))
