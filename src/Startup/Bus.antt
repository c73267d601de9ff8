-- ===== src/Startup/Bus.antt =====
-- services/mqtt/transport.rs: the broadcast channel of the connection's events, while the steps of main.rs
-- and the task of the transport go on side by side.
use uswarm_unitctl.Base.{Bool, true, false, Option, none, some, List, [], ◌∷◌, ◌++◌, if◌then◌else◌}
use uswarm_unitctl.Mqtt.Transport.{MqttEvent}
use uswarm_unitctl.Startup.{
  Step, processor_new, commands_subscribed, status_publisher_new, restart_completion_new,
  transport_run,
}

-- Whether the transport's task runs, the events that it has sent, and for each receiver that was
-- created what was sent since then; `subscription` is the outcome of the first `subscribe_commands`.
pub record Bus : Type 0 where
  pub running : Bool
  pub sent : List MqttEvent
  pub processor : Option (List MqttEvent)
  pub status : Option (List MqttEvent)
  pub completion : Option (List MqttEvent)
  pub subscription : Option Bool

-- Before any step.
abbrev pub silent : Bus
silent = record {
  running = false;
  sent = [];
  processor = none;
  status = none;
  completion = none;
  subscription = none;
}

-- The three constructors call `subscribe_events`, whose receiver gets what is sent from then on.
unfoldable pub take_step : Step → Bus → Bus
take_step processor_new b = record b { processor = some [] }
take_step (commands_subscribed taken) b = record b { subscription = some taken }
take_step status_publisher_new b = record b { status = some [] }
take_step restart_completion_new b = record b { completion = some [] }
take_step transport_run b = record b { running = true }
take_step _ b = b

abbrev pub push : MqttEvent → Option (List MqttEvent) → Option (List MqttEvent)
push e none = none
push e (some events) = some (events ++ e ∷ [])

-- `event_tx.send(..)`, which only the transport's task calls.
unfoldable pub send_event : MqttEvent → Bus → Bus
send_event e b =
    if b.running
    then record b {
      sent = b.sent ++ e ∷ [];
      processor = push e b.processor;
      status = push e b.status;
      completion = push e b.completion;
    }
    else b

-- A step of `main`, or an event that the transport's task has got.
pub data Moment : Type 0 where
  step : Step → Moment
  event : MqttEvent → Moment

unfoldable pub happen : List Moment → Bus → Bus
unfolding take_step send_event
happen [] b = b
happen (step s ∷ ms) b = happen ms (take_step s b)
happen (event e ∷ ms) b = happen ms (send_event e b)
