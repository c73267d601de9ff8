-- ===== src/Mqtt/Commands/Registered.antt =====
-- services/mqtt/commands.rs: the names that have a handler.
use uswarm_unitctl.Base.{
  ◌≡◌, refl, Bool-cases, inl, inr, List, [], ◌∷◌, Text, codes, has, is_some, text_eq,
}
use uswarm_unitctl.Handlers.Defs.{Handler}
use uswarm_unitctl.Mqtt.Topics.{Node}
use uswarm_unitctl.Mqtt.Processor.{new, register, insert_handler, find_handler}
use uswarm_unitctl.Mqtt.Commands.{World, Surroundings, register_commands}

abbrev pub command_names : List Text
command_names =
    codes "config_update"
    ∷ codes "get_config"
    ∷ codes "update_request"
    ∷ codes "modem_commands"
    ∷ codes "restart"
    ∷ []

module _ {V S : Type 0} where
  abbrev names : List (Text × Handler V S) → List Text
  names [] = []
  names ((n, h) ∷ rest) = n ∷ names rest

  find_handler-has :
      (name : Text) (hs : List (Text × Handler V S))
      → is_some (find_handler name hs) ≡ has (names hs) name
  unfolding find_handler has
  find_handler-has name [] = refl
  find_handler-has name ((n, h) ∷ rest) = elim (Bool-cases (text_eq n name)) [
    | inl e ↦ rw (find_handler, e) refl
    | inr e ↦ rw (find_handler, e) (find_handler-has name rest)
  ]

-- After the registration, exactly the five commands of the protocol have a handler.
pub register_commands-find_handler :
    {V : Type 0} (env : Surroundings V) (node : Node) (world : World) (name : Text)
    → is_some (find_handler name (register_commands env (new node world)).handlers)
      ≡ has command_names name
unfolding register_commands register insert_handler new text_eq
register_commands-find_handler env node world name =
    find_handler-has name (register_commands env (new node world)).handlers
