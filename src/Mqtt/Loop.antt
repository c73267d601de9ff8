-- ===== src/Mqtt/Loop.antt =====
-- `CommandProcessor::drain_commands` of services/mqtt/commands.rs. The order in which its `select!`
-- sees the messages, the connections and the shutdown is the order of a list.
pub mod Owned
pub mod Panics
mod Tests
use uswarm_unitctl.Base.{ℕ, Bool, Option, none, some, List, [], ◌∷◌, Text}
use uswarm_unitctl.Mqtt.Topics.{command_topic, extract_command_name}
use uswarm_unitctl.Mqtt.Processor.{
  Outside, Processor, Exit, returned, panicked, blocked, subscribe_commands, process_command,
}

-- A message comes with the shutdown that may interrupt its handler, as in `process_command`, and a
-- connection with whether the client takes the subscription.
pub data BridgeEvent (S : Type 0) : Type 0 where
  message : Text → List ℕ → Option S → BridgeEvent S
  connected : Bool → BridgeEvent S
  disconnected : BridgeEvent S
  channel_closed : BridgeEvent S
  cancelled : BridgeEvent S

-- The loop waits for another event, it was left by `break`, its task panicked, or it awaits a handler.
pub data LoopExit : Type 0 where
  waiting left_loop task_panicked handler_waits : LoopExit

module _ {V S : Type 0} where
  -- Only a handler that returns lets the loop go on.
  unfoldable pub after_message :
      Exit → Processor V S → LoopExit × Processor V S → LoopExit × Processor V S
  after_message returned q rest = rest
  after_message panicked q rest = (task_panicked, q)
  after_message blocked q rest = (handler_waits, q)

module _ {V S : Type 0} (out : Outside V) where
  unfoldable pub handle_message :
      Option Text → List ℕ → Option S → Processor V S → Exit × Processor V S
  handle_message none payload shutdown p = (returned, p)
  handle_message (some cmd) payload shutdown p = process_command out cmd payload shutdown p

  -- `drain_commands`
  unfoldable pub drain_commands : List (BridgeEvent S) → Processor V S → LoopExit × Processor V S
  unfolding handle_message after_message
  drain_commands [] p = (waiting, p)
  drain_commands (message topic payload shutdown ∷ events) p =
      let (exit, q) =
        handle_message (extract_command_name topic (command_topic p.node [] [])) payload shutdown
          p in
      let rest = drain_commands events q in after_message exit q rest
  drain_commands (connected taken ∷ events) p = drain_commands events (subscribe_commands taken p)
  drain_commands (disconnected ∷ events) p = drain_commands events p
  drain_commands (channel_closed ∷ events) p = (left_loop, p)
  drain_commands (cancelled ∷ events) p = (left_loop, p)
