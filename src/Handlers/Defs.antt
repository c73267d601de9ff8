-- ===== src/Handlers/Defs.antt =====
-- What a handler is to the command processor, and the handlers that only answer: config_update.rs,
-- get_config.rs and update_request.rs.
use uswarm_unitctl.Base.{Option, none, some, List, [], Text, codes, Result, ok, err}
use uswarm_unitctl.Config.{Config}
use uswarm_unitctl.Messages.{
  CommandEnvelope, CommandPayload, get_config, config_update, update_request, CommandResultData,
  config_result, config_update_result, update_result, safe_config,
}

-- A run of `handle`: it returns a result or the message of a `CommandError`, or it awaits for ever.
pub data HandlerExit : Type 0 where
  finished : Result CommandResultData Text → HandlerExit
  parked : HandlerExit

-- A handler may change the world `S` outside the processor.
abbrev pub Handler : Type 0 → Type 0 → Type 0
Handler V S = CommandEnvelope V → S → HandlerExit × S

module _ {V : Type 0} where
  unfoldable pub get_config_reply : Config → CommandPayload V → Result CommandResultData Text
  get_config_reply config get_config = ok (config_result (safe_config config))
  get_config_reply config _ = err (codes "expected GetConfig payload")

  -- `GetConfigHandler::handle`
  unfoldable pub handle_get_config : {S : Type 0} → Config → Handler V S
  unfolding get_config_reply
  handle_get_config config e s = (finished (get_config_reply config e.payload), s)

  -- `object_keys` is `Value::as_object` with the keys of the object.
  unfoldable pub config_update_reply :
      (V → Option (List Text)) → CommandPayload V → Result CommandResultData Text
  config_update_reply object_keys (config_update value) = ok (
      config_update_result (record {
        message = codes "config update acknowledged (placeholder)";
        fields_received = elim (object_keys value) [ none ↦ [] | some keys ↦ keys ];
      }))
  config_update_reply object_keys _ = err (codes "expected ConfigUpdate payload")

  -- `ConfigUpdateHandler::handle`
  unfoldable pub handle_config_update : {S : Type 0} → (V → Option (List Text)) → Handler V S
  unfolding config_update_reply
  handle_config_update object_keys e s = (finished (config_update_reply object_keys e.payload), s)

  unfoldable pub update_request_reply : CommandPayload V → Result CommandResultData Text
  update_request_reply (update_request p) = ok (
      update_result (record {
        message = codes "update request acknowledged (placeholder)";
        version = p.version;
      }))
  update_request_reply _ = err (codes "expected UpdateRequest payload")

  -- `UpdateRequestHandler::handle`
  unfoldable pub handle_update_request : {S : Type 0} → Handler V S
  unfolding update_request_reply
  handle_update_request e s = (finished (update_request_reply e.payload), s)
