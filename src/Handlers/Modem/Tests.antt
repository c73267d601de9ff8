-- ===== src/Handlers/Modem/Tests.antt =====
-- Commands that the allowlist lets through, commands that it does not, and one that is sent.
use uswarm_unitctl.Base.{◌≡◌, refl, ◌⊎◌, false, some, [], codes, ok, trim, strip_prefix, text_eq}
use uswarm_unitctl.Messages.{CommandEnvelope, ModemCommandPayload, modem_commands}
use uswarm_unitctl.Handlers.Modem.{
  Modem, is_allowed_at_command, handle_modem_commands, allowed_upper, to_uppercase, query_allowed,
}
use uswarm_unitctl.Handlers.Modem.Allowed.{IsAllowed, is_allowed_at_command_iff}
use uswarm_unitctl.Handlers.Modem.Sent.{IsFailure, IsSent, handle_modem_commands-sends}

write_form_refused : is_allowed_at_command (codes "AT+COPS=1") ≡ false
unfolding is_allowed_at_command trim allowed_upper to_uppercase strip_prefix query_allowed text_eq
write_form_refused = refl

chain_refused : is_allowed_at_command (codes "AT+CSQ;+CFUN=0") ≡ false
unfolding is_allowed_at_command trim allowed_upper to_uppercase
chain_refused = refl

is_allowed_at_command_iff_example : IsAllowed (codes " at+cops?")
unfolding is_allowed_at_command trim allowed_upper to_uppercase strip_prefix query_allowed text_eq
is_allowed_at_command_iff_example = (is_allowed_at_command_iff (codes " at+cops?")).0 refl

abbrev signal_query : CommandEnvelope Unit
signal_query = record {
  uuid = codes "a";
  issued_at = 0;
  ttl_sec = 30;
  payload = modem_commands (record { command = codes "AT+CSQ"; timeout_ms = some 90000 });
}

abbrev answering_modem : Modem
answering_modem command timeout = ok (codes "OK")

handle_modem_commands-sends_example :
    let out = handle_modem_commands (some answering_modem) signal_query [] in
    ((out.1 ≡ []) × IsFailure out.0)
    ⊎ ((p : ModemCommandPayload) × (command : Modem) × (signal_query.payload ≡ modem_commands p)
        × (some answering_modem ≡ some command)
        × IsSent p command [] out)
handle_modem_commands-sends_example =
    handle_modem_commands-sends (some answering_modem) signal_query []
