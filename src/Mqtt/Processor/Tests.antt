-- ===== src/Mqtt/Processor/Tests.antt =====
-- A node with one handler, which takes `get_config` commands.
use uswarm_unitctl.Base.{
  ℕ, ◌≡◌, refl, ◌^◌, ◌+◌, none, some, List, [], ◌∷◌, ◌++◌, map, Text, codes, err, has, text_eq,
  insert,
}
use uswarm_unitctl.Messages.{CommandEnvelope, get_config, is_expired_at}
use uswarm_unitctl.Handlers.Defs.{finished, Handler}
use uswarm_unitctl.Mqtt.Dedup.{record_uuid, with_capacity}
use uswarm_unitctl.Mqtt.Dedup.Window.{IsWindow, with_capacity-IsWindow}
use uswarm_unitctl.Mqtt.Processor.{
  Outside, Processor, returned, new, register, process_command, process_envelope, process_fresh,
  run_handler, find_handler, publish_status, execute, complete, publish_result,
}
use uswarm_unitctl.Mqtt.Processor.Lifecycle.{
  Message, Lifecycle, Prints, wire, process_command-Lifecycle,
}
use uswarm_unitctl.Mqtt.Processor.Redelivery.{process_command_duplicate, process_command_once}

-- Every payload is one envelope, which carries the payload as its uuid.
abbrev envelope : Text → CommandEnvelope Unit
envelope uuid = record { uuid = uuid; issued_at = 0; ttl_sec = 30; payload = get_config }

abbrev outside : Outside Unit
outside = record {
  parse_envelope = λ payload. some (envelope payload);
  status_json = λ s. some s.uuid;
  result_json = λ r. some r.uuid;
  clock = λ n. n;
  last_instant = 10 ^ 30;
}

outside-Prints : Prints outside
outside-Prints = record {
  status_text = λ s. s.uuid;
  status_prints = λ s. refl;
  result_text = λ r. r.uuid;
  result_prints = λ r. refl;
}

-- Counts its runs and fails.
abbrev count_runs : Handler Unit ℕ
count_runs e runs = (finished (err (codes "no")), runs + 1)

abbrev sample_processor : Processor Unit ℕ
sample_processor =
    register (codes "get_config") count_runs
      (new (record { env_prefix = codes "prod"; node_id = codes "n1" }) 0)

runs_once :
    (process_command outside
      (codes "get_config")
      (codes "a")
      none
      (process_command outside (codes "get_config") (codes "a") none sample_processor).1).1.world
    ≡ 1
unfolding process_command process_envelope record_uuid has register new with_capacity process_fresh
    is_expired_at run_handler find_handler publish_status text_eq execute complete publish_result
    insert
runs_once = refl

process_command-Lifecycle_example :
    let run = process_command outside (codes "get_config") (codes "a") none sample_processor in
    (ms : List Message) × Lifecycle run.0 ms
    × (run.1.sent
        ≡ sample_processor.sent
          ++ map (wire outside-Prints sample_processor.node (codes "get_config") (codes "a")) ms)
process_command-Lifecycle_example =
    (process_command-Lifecycle outside-Prints (codes "get_config") (codes "a") none
        sample_processor).1
      (envelope (codes "a")) refl

-- A queue that has taken one uuid.
abbrev seen_processor : Processor Unit ℕ
seen_processor = record sample_processor {
  dedup = record { seen = codes "a" ∷ []; order = codes "a" ∷ [] };
}

seen-IsWindow : IsWindow seen_processor.dedup (codes "a" ∷ [])
unfolding has
seen-IsWindow = record { same = refl; last = refl; distinct = (refl, tt) }

process_command_duplicate_example :
    process_command outside (codes "get_config") (codes "a") none seen_processor
    ≡ (returned, seen_processor)
unfolding has text_eq
process_command_duplicate_example =
    process_command_duplicate outside (codes "get_config") (codes "a") none seen_processor
      (envelope (codes "a")) (codes "a" ∷ []) refl seen-IsWindow refl

process_command_once_example :
    let q = (process_command outside (codes "get_config") (codes "a") none sample_processor).1 in
    process_command outside (codes "restart") (codes "a") none q ≡ (returned, q)
unfolding new register
process_command_once_example =
    process_command_once outside (codes "get_config") (codes "restart") (codes "a") (codes "a") none
      none sample_processor (envelope (codes "a")) (envelope (codes "a")) [] refl refl refl
      with_capacity-IsWindow
