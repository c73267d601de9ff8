-- ===== src/Mqtt/Processor.antt =====
-- `CommandProcessor` of services/mqtt/commands.rs. What it publishes is a list of the calls of the
-- MQTT client, whose errors are only logged.
pub mod Lifecycle
pub mod Redelivery
mod Tests
use uswarm_unitctl.Base.{
  ℕ, ◌+◌, Bool, true, false, not, Option, none, some, List, [], ◌∷◌, ◌++◌, Text, codes, text_eq,
  if◌then◌else◌, Result, ok, err,
}
use uswarm_unitctl.Messages.{
  CommandEnvelope, CommandState, accepted, in_progress, completed, failed, rejected, expired,
  CommandStatus, CommandResultMsg, CommandResultData, is_expired_at,
}
use uswarm_unitctl.Handlers.Defs.{HandlerExit, finished, parked, Handler}
use uswarm_unitctl.Mqtt.Topics.{Node, command_topic, extract_command_name}
use uswarm_unitctl.Mqtt.Dedup.{DedupQueue, with_capacity, record_uuid}

pub data QoS : Type 0 where
  at_most_once at_least_once exactly_once : QoS

-- A call of `MqttTransport::publish`.
pub record Publish : Type 0 where
  pub topic : Text
  pub payload : Text
  pub qos : QoS
  pub retain : Bool

-- What the processor does not implement: the parser and the printers of serde_json, the clock, as
-- the instant of its n-th reading, and the last instant of chrono's calendar.
pub record Outside (V : Type 0) : Type 0 where
  pub parse_envelope : List ℕ → Option (CommandEnvelope V)
  pub status_json : CommandStatus → Option Text
  pub result_json : CommandResultMsg → Option Text
  pub clock : ℕ → ℕ
  pub last_instant : ℕ

-- `readings` counts the readings of the clock; `world` is what the handlers change.
pub record Processor (V S : Type 0) : Type 0 where
  pub node : Node
  pub handlers : List (Text × Handler V S)
  pub dedup : DedupQueue
  pub sent : List Publish
  pub subscribed : List Text
  pub readings : ℕ
  pub world : S

-- How a call of `process_command` ends: it returns, it panics, or it awaits its handler for ever.
pub data Exit : Type 0 where
  returned panicked blocked : Exit

module _ {V S : Type 0} where
  -- `CommandProcessor::new`
  unfoldable pub new : Node → S → Processor V S
  new node world = record {
    node = node;
    handlers = [];
    dedup = with_capacity;
    sent = [];
    subscribed = [];
    readings = 0;
    world = world;
  }

  unfoldable pub insert_handler :
      Text → Handler V S → List (Text × Handler V S) → List (Text × Handler V S)
  insert_handler name handler [] = (name, handler) ∷ []
  insert_handler name handler ((n, h) ∷ rest) =
      if text_eq n name then (name, handler) ∷ rest else (n, h) ∷ insert_handler name handler rest

  -- `CommandProcessor::register`
  unfoldable pub register : Text → Handler V S → Processor V S → Processor V S
  unfolding insert_handler
  register name handler p = record p { handlers = insert_handler name handler p.handlers }

  -- `self.handlers.get(cmd_name)`
  unfoldable pub find_handler : Text → List (Text × Handler V S) → Option (Handler V S)
  find_handler name [] = none
  find_handler name ((n, h) ∷ rest) = if text_eq n name then some h else find_handler name rest

  -- `CommandProcessor::subscribe_commands`; the flag says whether the client takes the request. The
  -- error is only logged.
  unfoldable pub subscribe_commands : Bool → Processor V S → Processor V S
  unfolding command_topic
  subscribe_commands taken p =
      let subscribe_topic = command_topic p.node (codes "+") (codes "in") in
      if taken then record p { subscribed = p.subscribed ++ subscribe_topic ∷ [] } else p

module _ {V S : Type 0} (out : Outside V) where
  unfoldable pub send : Text → Option Text → Processor V S → Processor V S
  send topic none p = p
  send topic (some json) p = record p {
    sent =
        p.sent
        ++ record { topic = topic; payload = json; qos = at_least_once; retain = false } ∷ [];
  }

  -- `publish_status`
  unfoldable pub publish_status : Text → Text → CommandState → Processor V S → Processor V S
  unfolding send
  publish_status cmd uuid state p =
      let msg : CommandStatus = record { uuid = uuid; state = state; ts = out.clock p.readings } in
      send (command_topic p.node cmd (codes "status")) (out.status_json msg)
        (record p { readings = p.readings + 1 })

  -- `publish_result`
  unfoldable pub publish_result :
      Text → Text → Bool → Option Text → Option CommandResultData → Processor V S → Processor V S
  unfolding send
  publish_result cmd uuid succeeded error content p =
      let msg : CommandResultMsg = record {
        uuid = uuid;
        succeeded = succeeded;
        ts = out.clock p.readings;
        error = error;
        content = content;
      } in
      send (command_topic p.node cmd (codes "result")) (out.result_json msg)
        (record p { readings = p.readings + 1 })

  -- The arm of the `select!` in which the handler is ready first.
  unfoldable pub complete : Text → Text → HandlerExit → Processor V S → Exit × Processor V S
  complete cmd uuid (finished (ok content)) p = (
    returned,
    publish_result cmd uuid true none (some content) (publish_status cmd uuid completed p),
  )
  complete cmd uuid (finished (err message)) p = (
    returned,
    publish_result cmd uuid false (some message) none (publish_status cmd uuid failed p),
  )
  complete cmd uuid parked p = (blocked, p)

  -- The `select!`: `none` lets the handler run to its end; `some world` is a shutdown that drops the
  -- handler, which has left the world so.
  unfoldable pub execute :
      Text → CommandEnvelope V → Handler V S → Option S → Processor V S → Exit × Processor V S
  execute cmd e handler none p =
      let (exit, world) = handler e p.world in complete cmd e.uuid exit (record p { world = world })
  execute cmd e handler (some world) p = (returned, record p { world = world })

  unfoldable pub run_handler :
      Text
      → CommandEnvelope V
      → Option (Handler V S)
      → Option S
      → Processor V S
      → Exit × Processor V S
  run_handler cmd e none shutdown p = (returned, publish_status cmd e.uuid rejected p)
  run_handler cmd e (some handler) shutdown p =
      execute cmd e handler shutdown (publish_status cmd e.uuid in_progress p)

  -- From the test of the time to live on; the argument is the result of that test.
  unfoldable pub process_fresh :
      Text → CommandEnvelope V → Option Bool → Option S → Processor V S → Exit × Processor V S
  process_fresh cmd e none shutdown p = (panicked, p)
  process_fresh cmd e (some true) shutdown p = (returned, publish_status cmd e.uuid expired p)
  process_fresh cmd e (some false) shutdown p =
      let q = publish_status cmd e.uuid accepted p in
      run_handler cmd e (find_handler cmd q.handlers) shutdown q

  -- From the recording of the uuid on.
  unfoldable pub process_envelope :
      Text → CommandEnvelope V → Option S → Processor V S → Exit × Processor V S
  process_envelope cmd e shutdown p =
      let (dedup, fresh) = record_uuid p.dedup e.uuid in
      let q = record p { dedup = dedup } in
      if not fresh
      then (returned, q)
      else process_fresh cmd e (is_expired_at out.last_instant e (out.clock q.readings)) shutdown
          (record q { readings = q.readings + 1 })

  -- `process_command`
  unfoldable pub process_command : Text → List ℕ → Option S → Processor V S → Exit × Processor V S
  process_command cmd payload shutdown p = elim (out.parse_envelope payload) [
    | none ↦ (returned, p)
    | some e ↦ process_envelope cmd e shutdown p
  ]
