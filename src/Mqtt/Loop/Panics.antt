-- ===== src/Mqtt/Loop/Panics.antt =====
-- A message that ends the loop.
use uswarm_unitctl.Base.{ℕ, ◌+◌, ◌*◌, ◌<◌, ◌≡◌, refl, true, Option, some, List, [], ◌∷◌, min, Text}
use uswarm_unitctl.Float.{nanos_per_sec}
use uswarm_unitctl.Messages.{CommandEnvelope, max_ttl_sec}
use uswarm_unitctl.Messages.Expiry.{is_expired_at_panics}
use uswarm_unitctl.Mqtt.Topics.{command_topic, extract_command_name}
use uswarm_unitctl.Mqtt.Dedup.{record_uuid}
use uswarm_unitctl.Mqtt.Processor.{
  Outside, Processor, panicked, process_fresh, process_envelope, process_command,
}
use uswarm_unitctl.Mqtt.Loop.{
  BridgeEvent, message, task_panicked, handle_message, after_message, drain_commands,
}

module _ {V S : Type 0} (out : Outside V) where
  process_command_panics :
      (cmd : Text) (payload : List ℕ) (shutdown : Option S) (p : Processor V S)
      (e : CommandEnvelope V)
      → out.parse_envelope payload ≡ some e
      → (record_uuid p.dedup e.uuid).1 ≡ true
      → out.last_instant < e.issued_at + min e.ttl_sec max_ttl_sec * nanos_per_sec
      → (process_command out cmd payload shutdown p).0 ≡ panicked
  unfolding process_command process_envelope process_fresh
  process_command_panics cmd payload shutdown p e parsed fresh late =
      rw (parsed, process_command)
        (rw (fresh, is_expired_at_panics out.last_instant e (out.clock p.readings) late) refl)

  -- One message ends the processing of commands for good: if its topic names a command, its uuid is
  -- new, and its time of issue with the capped time to live lies past the last instant of the
  -- calendar, the loop's task panics, and no later event is looked at.
  pub drain_commands_panics :
      (topic name : Text) (payload : List ℕ) (shutdown : Option S) (later : List (BridgeEvent S))
      (p : Processor V S) (e : CommandEnvelope V)
      → extract_command_name topic (command_topic p.node [] []) ≡ some name
      → out.parse_envelope payload ≡ some e
      → (record_uuid p.dedup e.uuid).1 ≡ true
      → out.last_instant < e.issued_at + min e.ttl_sec max_ttl_sec * nanos_per_sec
      → drain_commands out (message topic payload shutdown ∷ later) p
        ≡ (task_panicked, (process_command out name payload shutdown p).1)
  unfolding drain_commands handle_message after_message
  drain_commands_panics topic name payload shutdown later p e named parsed fresh late =
      rw (named, handle_message)
        (rw (process_command_panics name payload shutdown p e parsed fresh late, after_message)
          refl)
