-- ===== src/Mqtt/Commands.antt =====
-- services/mqtt/commands.rs: the registration of the service's handlers, and the bridge before the loop
-- of the processor.
pub mod Registered
mod Tests
use uswarm_unitctl.Base.{ℕ, Bool, true, false, Option, none, some, List, [], ◌∷◌, Text, codes}
use uswarm_unitctl.Config.{Config}
use uswarm_unitctl.Handlers.Defs.{
  Handler, HandlerExit, handle_config_update, handle_get_config, handle_update_request,
}
use uswarm_unitctl.Handlers.Modem.{Modem, Calls, handle_modem_commands}
use uswarm_unitctl.Restart.Handler.{System, Machine, new_restart, handle_restart}
use uswarm_unitctl.Mqtt.Processor.{Processor, register}

-- What the handlers change: the calls of the modem that the context has by now, and the machine.
pub record World : Type 0 where
  pub modem : Option Modem
  pub calls : Calls
  pub machine : Machine

-- What the handlers are given: the configuration, the keys of an object of serde_json, the system.
pub record Surroundings (V : Type 0) : Type 0 where
  pub config : Config
  pub object_keys : V → Option (List Text)
  pub system : System

abbrev with_calls : World → HandlerExit × Calls → HandlerExit × World
with_calls w (exit, calls) = (exit, record w { calls = calls })

abbrev with_machine : World → HandlerExit × Machine → HandlerExit × World
with_machine w (exit, machine) = (exit, record w { machine = machine })

module _ {V : Type 0} where
  -- `ModemCommandsHandler`, which asks the context for the modem on each command.
  abbrev pub on_modem : Handler V World
  on_modem e w = with_calls w (handle_modem_commands w.modem e w.calls)

  abbrev pub on_machine : System → Handler V World
  on_machine system e w = with_machine w (handle_restart system new_restart e w.machine)

  -- `CommandProcessor::register_commands`
  unfoldable pub register_commands : Surroundings V → Processor V World → Processor V World
  unfolding register
  register_commands env p = register (codes "restart") (on_machine env.system) (
      register (codes "modem_commands") on_modem (
        register (codes "update_request") handle_update_request (
          register (codes "get_config") (handle_get_config env.config)
            (register (codes "config_update") (handle_config_update env.object_keys) p))))

-- What the broadcast channel gives to the bridge; the flag of an event says whether the loop's queue
-- still takes it.
pub data SourceEvent (E : Type 0) : Type 0 where
  received : E → Bool → SourceEvent E
  missed : ℕ → SourceEvent E
  source_closed : SourceEvent E
  bridge_cancelled : SourceEvent E

-- `CommandProcessor::fill_bridge_queue`: the events that it hands on.
unfoldable pub fill_bridge_queue : {E : Type 0} → List (SourceEvent E) → List E
fill_bridge_queue [] = []
fill_bridge_queue (received e true ∷ events) = e ∷ fill_bridge_queue events
fill_bridge_queue (received e false ∷ events) = []
fill_bridge_queue (missed n ∷ events) = fill_bridge_queue events
fill_bridge_queue (source_closed ∷ events) = []
fill_bridge_queue (bridge_cancelled ∷ events) = []
