-- ===== src/Mqtt/Processor/Redelivery.antt =====
-- Redelivered commands.
use uswarm_unitctl.Base.{
  ℕ, ◌≡◌, refl, sym, ap, ◌∙◌, Bool, true, false, Option, none, some, List, ◌+◌, Text, codes, has,
  take, inl, inr, Bool-cases, ok, err,
}
use uswarm_unitctl.Messages.{
  CommandEnvelope, CommandState, accepted, in_progress, completed, failed, rejected, expired,
  CommandResultData,
}
use uswarm_unitctl.Mqtt.Topics.{command_topic}
use mathlib.Core.Path.{subst}
use uswarm_unitctl.Handlers.Defs.{HandlerExit, finished, parked, Handler}
use uswarm_unitctl.Mqtt.Dedup.{dedup_capacity, record_uuid}
use uswarm_unitctl.Mqtt.Dedup.Window.{
  IsWindow, record_spec, record_uuid_seen, record_uuid-IsWindow, has_newest,
}
use uswarm_unitctl.Mqtt.Processor.{
  Outside, Processor, returned, send, publish_status, publish_result, complete, execute,
  run_handler, process_fresh, process_envelope, process_command,
}

-- What publishing leaves as it was.
record Keeps {V S : Type 0} (p q : Processor V S) : Type 1 where
  dedup : q.dedup ≡ p.dedup
  handlers : q.handlers ≡ p.handlers
  world : q.world ≡ p.world

module _ {V S : Type 0} (out : Outside V) where
  -- With a queue that stands for the history of the accepted uuids, a command whose uuid is among
  -- the last 256 of them changes nothing: no message, no reading of the clock, no run of a handler.
  pub process_command_duplicate :
      (cmd : Text) (payload : List ℕ) (shutdown : Option S) (p : Processor V S)
      (e : CommandEnvelope V) (history : List Text)
      → out.parse_envelope payload ≡ some e
      → IsWindow p.dedup history
      → has (take dedup_capacity history) e.uuid ≡ true
      → process_command out cmd payload shutdown p ≡ (returned, p)
  unfolding process_command process_envelope
  process_command_duplicate cmd payload shutdown p e history parsed w known =
      rw (parsed, process_command) (rw (record_uuid_seen w e.uuid known))

  send-Keeps :
      (topic : Text) (json : Option Text) (p : Processor V S) → Keeps p (send out topic json p)
  unfolding send
  send-Keeps topic none p = record { dedup = refl; handlers = refl; world = refl }
  send-Keeps topic (some j) p = record { dedup = refl; handlers = refl; world = refl }

  publish_status-Keeps :
      (cmd uuid : Text) (state : CommandState) (p : Processor V S)
      → Keeps p (publish_status out cmd uuid state p)
  unfolding publish_status
  publish_status-Keeps cmd uuid state p =
      let k =
        send-Keeps (command_topic p.node cmd (codes "status")) (out.status_json _)
          (record p { readings = p.readings + 1 }) in
      record { dedup = k.dedup; handlers = k.handlers; world = k.world }

  publish_result-Keeps :
      (cmd uuid : Text) (success : Bool) (error : Option Text) (content : Option CommandResultData)
      (p : Processor V S)
      → Keeps p (publish_result out cmd uuid success error content p)
  unfolding publish_result
  publish_result-Keeps cmd uuid success error content p =
      let k =
        send-Keeps (command_topic p.node cmd (codes "result")) (out.result_json _)
          (record p { readings = p.readings + 1 }) in
      record { dedup = k.dedup; handlers = k.handlers; world = k.world }

  complete-Keeps :
      (cmd uuid : Text) (exit : HandlerExit) (p : Processor V S)
      → Keeps p (complete out cmd uuid exit p).1
  unfolding complete
  complete-Keeps cmd uuid (finished (ok content)) p =
      let k = publish_status-Keeps cmd uuid completed p in
      let l =
        publish_result-Keeps cmd uuid true none (some content)
          (publish_status out cmd uuid completed p) in
      record {
        dedup = l.dedup ∙ k.dedup;
        handlers = l.handlers ∙ k.handlers;
        world = l.world ∙ k.world;
      }
  complete-Keeps cmd uuid (finished (err message)) p =
      let k = publish_status-Keeps cmd uuid failed p in
      let l =
        publish_result-Keeps cmd uuid false (some message) none
          (publish_status out cmd uuid failed p) in
      record {
        dedup = l.dedup ∙ k.dedup;
        handlers = l.handlers ∙ k.handlers;
        world = l.world ∙ k.world;
      }
  complete-Keeps cmd uuid parked p = record { dedup = refl; handlers = refl; world = refl }

  dedup-run_handler :
      (cmd : Text) (e : CommandEnvelope V) (handler : Option (Handler V S)) (shutdown : Option S)
      (p : Processor V S)
      → (run_handler out cmd e handler shutdown p).1.dedup ≡ p.dedup
  unfolding run_handler execute
  dedup-run_handler cmd e none shutdown p = (publish_status-Keeps cmd e.uuid rejected p).dedup
  dedup-run_handler cmd e (some handler) (some world) p =
      (publish_status-Keeps cmd e.uuid in_progress p).dedup
  dedup-run_handler cmd e (some handler) none p =
      let q = publish_status out cmd e.uuid in_progress p in
      let (exit, world) = handler e q.world in
      (complete-Keeps cmd e.uuid exit (record q { world = world })).dedup
      ∙ (publish_status-Keeps cmd e.uuid in_progress p).dedup

  dedup-process_fresh :
      (cmd : Text) (e : CommandEnvelope V) (late : Option Bool) (shutdown : Option S)
      (p : Processor V S)
      → (process_fresh out cmd e late shutdown p).1.dedup ≡ p.dedup
  unfolding process_fresh
  dedup-process_fresh cmd e none shutdown p = refl
  dedup-process_fresh cmd e (some true) shutdown p =
      (publish_status-Keeps cmd e.uuid expired p).dedup
  dedup-process_fresh cmd e (some false) shutdown p =
      dedup-run_handler cmd e _ shutdown (publish_status out cmd e.uuid accepted p)
      ∙ (publish_status-Keeps cmd e.uuid accepted p).dedup

  dedup-process_envelope :
      (cmd : Text) (e : CommandEnvelope V) (shutdown : Option S) (p : Processor V S)
      → (process_envelope out cmd e shutdown p).1.dedup ≡ (record_uuid p.dedup e.uuid).0
  unfolding process_envelope
  dedup-process_envelope cmd e shutdown p = elim (Bool-cases (record_uuid p.dedup e.uuid).1) [
    | inl fresh ↦ rw fresh (dedup-process_fresh cmd e _ shutdown _)
    | inr known ↦ rw known
  ]

  pub dedup-process_command :
      (cmd : Text) (payload : List ℕ) (shutdown : Option S) (p : Processor V S)
      (e : CommandEnvelope V)
      → out.parse_envelope payload ≡ some e
      → (process_command out cmd payload shutdown p).1.dedup ≡ (record_uuid p.dedup e.uuid).0
  unfolding process_command
  dedup-process_command cmd payload shutdown p e parsed =
      rw (parsed, process_command) (dedup-process_envelope cmd e shutdown p)

  -- However a command ended, a redelivery of it changes nothing: with a queue that stands for the
  -- history of the accepted uuids, after a call for an envelope, a call for any envelope of the
  -- same uuid publishes nothing, reads no clock and runs no handler.
  pub process_command_once :
      (cmd cmd' : Text) (payload payload' : List ℕ) (shutdown shutdown' : Option S)
      (p : Processor V S) (e e' : CommandEnvelope V) (history : List Text)
      → out.parse_envelope payload ≡ some e
      → out.parse_envelope payload' ≡ some e'
      → e'.uuid ≡ e.uuid
      → IsWindow p.dedup history
      → let q = (process_command out cmd payload shutdown p).1 in
        process_command out cmd' payload' shutdown' q ≡ (returned, q)
  process_command_once cmd cmd' payload payload' shutdown shutdown' p e e' history parsed parsed'
        same w =
      process_command_duplicate cmd' payload' shutdown' _ e' (record_spec history e.uuid).0 parsed'
        (subst (λ d. IsWindow d (record_spec history e.uuid).0)
          (sym (dedup-process_command cmd payload shutdown p e parsed))
          (record_uuid-IsWindow w e.uuid).0)
        (ap (has (take dedup_capacity (record_spec history e.uuid).0)) same
          ∙ has_newest history e.uuid)
