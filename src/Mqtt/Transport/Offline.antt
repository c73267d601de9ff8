-- ===== src/Mqtt/Transport/Offline.antt =====
-- services/mqtt/transport.rs: the offline status of a shutdown.
use uswarm_unitctl.Base.{
  ℕ, ◌≡◌, refl, sym, ap, append-nil, true, Option, none, some, Option-cases, inl, inr, List, [],
  ◌∷◌, ◌++◌, Text, codes,
}
use uswarm_unitctl.Messages.Telemetry.{offline}
use uswarm_unitctl.Mqtt.Topics.{Node, status_topic}
use uswarm_unitctl.Mqtt.Processor.{Publish, at_least_once}
use uswarm_unitctl.Mqtt.Transport.{
  PollEvent, conn_ack, incoming_publish, other_packet, outgoing, connection_error, cancelled,
  Transport, TransportState, publish_offline, run_transport,
}

-- The instant of the last acknowledged connection, after one at `seen`.
abbrev pub last_connection : Option ℕ → List PollEvent → Option ℕ
last_connection seen [] = seen
last_connection seen (conn_ack now ∷ polls) = last_connection (some now) polls
last_connection seen (incoming_publish topic payload ∷ polls) = last_connection seen polls
last_connection seen (other_packet ∷ polls) = last_connection seen polls
last_connection seen (outgoing ∷ polls) = last_connection seen polls
last_connection seen (connection_error ∷ polls) = last_connection seen polls
last_connection seen (cancelled now ∷ polls) = seen

-- The instant of the shutdown.
abbrev pub shutdown_at : List PollEvent → Option ℕ
shutdown_at [] = none
shutdown_at (conn_ack now ∷ polls) = shutdown_at polls
shutdown_at (incoming_publish topic payload ∷ polls) = shutdown_at polls
shutdown_at (other_packet ∷ polls) = shutdown_at polls
shutdown_at (outgoing ∷ polls) = shutdown_at polls
shutdown_at (connection_error ∷ polls) = shutdown_at polls
shutdown_at (cancelled now ∷ polls) = some now

-- The status `<env_prefix>/nodes/<node_id>/status` with this payload: retained, QoS 1; nothing if
-- serde_json fails.
abbrev pub retained_status : Node → Option Text → List Publish
retained_status node none = []
retained_status node (some payload) =
    (record {
      topic = node.env_prefix ++ (codes "/nodes/" ++ (node.node_id ++ codes "/status"));
      payload = payload;
      qos = at_least_once;
      retain = true;
    })
    ∷ []

-- What is to be published, by the instants of the shutdown and of the last connection: nothing where
-- there is no shutdown or was no connection, and otherwise the status offline, stamped with the
-- shutdown, with the session and the instant of the connection.
abbrev pub farewell : Transport → Option ℕ → Option ℕ → List Publish
farewell t none last = []
farewell t (some now) none = []
farewell t (some now) (some last) = retained_status t.node (
    t.serialize (record {
      ts = now;
      content = offline (record { last_session = t.session_id; last_online = last });
    }))

publish_offline-farewell :
    (t : Transport) (now : ℕ) (last : Option ℕ)
    → publish_offline t now last ≡ farewell t (some now) last
unfolding publish_offline status_topic
publish_offline-farewell t now none = refl
publish_offline-farewell t now (some last) =
    elim (Option-cases (
      t.serialize (record {
        ts = now;
        content = offline (record { last_session = t.session_id; last_online = last });
      }))) [ inl e ↦ rw e refl | inr (payload, e) ↦ rw e refl ]

-- The event loop publishes nothing of its own but, at its shutdown and only if there was a connection,
-- one message on the node's status topic, retained and of QoS 1: the status offline with the instants
-- of the shutdown and of the last connection before it, whatever errors came between, and nothing if
-- that status cannot be serialized.
pub run_transport-offline :
    (t : Transport) (polls : List PollEvent) (s : TransportState)
    → (run_transport t polls s).published
      ≡ s.published ++ farewell t (shutdown_at polls) (last_connection s.last_connected_at polls)
unfolding run_transport
run_transport-offline t [] s = sym (append-nil s.published)
run_transport-offline t (conn_ack now ∷ polls) s = run_transport-offline t polls _
run_transport-offline t (incoming_publish topic payload ∷ polls) s = run_transport-offline t polls _
run_transport-offline t (other_packet ∷ polls) s = run_transport-offline t polls s
run_transport-offline t (outgoing ∷ polls) s = run_transport-offline t polls s
run_transport-offline t (connection_error ∷ polls) s = run_transport-offline t polls _
run_transport-offline t (cancelled now ∷ polls) s =
    ap (λ l. s.published ++ l) (publish_offline-farewell t now s.last_connected_at)
