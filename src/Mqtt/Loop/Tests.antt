-- ===== src/Mqtt/Loop/Tests.antt =====
-- A command for this node, one for another, and the end of the service.
use uswarm_unitctl.Mqtt.Dedup.{record_uuid, with_capacity}
use uswarm_unitctl.Mqtt.Topics.{extract_command_name, command_topic}
use uswarm_unitctl.Base.{
  ℕ, ◌≡◌, refl, true, none, some, List, [], ◌∷◌, map, All, codes, ◌^◌, strip_prefix, has, arith,
}
use uswarm_unitctl.Messages.{get_config, is_expired_at}
use uswarm_unitctl.Mqtt.Processor.{
  Outside, Processor, new, subscribe_commands, process_command, process_envelope, process_fresh,
  run_handler, find_handler, publish_status,
}
use uswarm_unitctl.Mqtt.Processor.Lifecycle.{Prints}
use uswarm_unitctl.Mqtt.Loop.{
  BridgeEvent, message, connected, cancelled, task_panicked, drain_commands,
}
use uswarm_unitctl.Mqtt.Loop.Panics.{drain_commands_panics}
use uswarm_unitctl.Mqtt.Loop.Owned.{IsOwned, drain_commands-IsOwned}

abbrev echo : Outside Unit
echo = record {
  parse_envelope = λ payload.
      some (record { uuid = payload; issued_at = 0; ttl_sec = 30; payload = get_config });
  status_json = λ s. some s.uuid;
  result_json = λ r. some r.uuid;
  clock = λ n. n;
  last_instant = 10 ^ 30;
}

abbrev echo-Prints : Prints echo
echo-Prints = record {
  status_text = λ s. s.uuid;
  status_prints = λ s. refl;
  result_text = λ r. r.uuid;
  result_prints = λ r. refl;
}

abbrev bare_processor : Processor Unit ℕ
bare_processor = new (record { env_prefix = codes "prod"; node_id = codes "n1" }) 0

abbrev sample_events : List (BridgeEvent ℕ)
sample_events =
    connected true
    ∷ message (codes "prod/nodes/n1/cmnd/get_config/in") (codes "a") none
    ∷ message (codes "prod/nodes/n2/cmnd/get_config/in") (codes "b") none
    ∷ cancelled
    ∷ message (codes "prod/nodes/n1/cmnd/get_config/in") (codes "c") none
    ∷ []

topics_used :
    map (λ p. p.topic) (drain_commands echo sample_events bare_processor).1.sent
    ≡ codes "prod/nodes/n1/cmnd/get_config/status"
      ∷ codes "prod/nodes/n1/cmnd/get_config/status"
      ∷ []
unfolding drain_commands extract_command_name strip_prefix command_topic subscribe_commands new
    process_command process_envelope record_uuid has with_capacity process_fresh is_expired_at
    run_handler find_handler publish_status
topics_used = refl

drain_commands-IsOwned_example :
    All (IsOwned bare_processor.node) (drain_commands echo sample_events bare_processor).1.sent
unfolding new
drain_commands-IsOwned_example = drain_commands-IsOwned echo-Prints sample_events bare_processor tt

abbrev far_future : Outside Unit
far_future = record echo {
  parse_envelope = λ payload.
      some (record { uuid = payload; issued_at = 10 ^ 30; ttl_sec = 30; payload = get_config });
}

drain_commands_panics_example :
    drain_commands far_future
      (message (codes "prod/nodes/n1/cmnd/get_config/in") (codes "a") none ∷ sample_events)
      bare_processor
    ≡ (
      task_panicked,
      (process_command far_future (codes "get_config") (codes "a") none bare_processor).1,
    )
unfolding new extract_command_name strip_prefix command_topic record_uuid has with_capacity
drain_commands_panics_example =
    drain_commands_panics far_future (codes "prod/nodes/n1/cmnd/get_config/in") (codes "get_config")
      (codes "a") none sample_events bare_processor
      (record { uuid = codes "a"; issued_at = 10 ^ 30; ttl_sec = 30; payload = get_config }) refl
      refl refl (omega arith)
