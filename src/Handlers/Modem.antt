-- ===== src/Handlers/Modem.antt =====
-- handlers/modem_commands.rs: the allowlist of AT commands, and the handler.
pub mod Allowed
pub mod Sent
mod Tests
use uswarm_unitctl.Base.{
  ℕ, ◌-◌, Bool, true, false, not, ◌&&◌, ◌||◌, Option, none, some, List, [], ◌∷◌, ◌++◌, Text, codes,
  trim, all, any, is_empty, text_eq, contains_char, starts_with, strip_prefix, ltb, leb, min,
  if◌then◌else◌, Result, ok, err,
}
use uswarm_unitctl.Messages.{
  CommandEnvelope, CommandPayload, ModemCommandPayload, modem_commands, CommandResultData,
  modem_result,
}
use uswarm_unitctl.Handlers.Defs.{HandlerExit, finished, Handler}

abbrev pub default_at_timeout_ms : ℕ
default_at_timeout_ms = 5000

abbrev pub max_at_timeout_ms : ℕ
max_at_timeout_ms = 30000

abbrev pub safe_at_prefixes : List Text
safe_at_prefixes =
    codes "AT+CSQ"
    ∷ codes "AT+CIMI"
    ∷ codes "AT+CGSN"
    ∷ codes "AT+CGMM"
    ∷ codes "AT+CGMR"
    ∷ codes "ATI"
    ∷ []

abbrev pub query_only_at_prefixes : List Text
query_only_at_prefixes =
    codes "AT+COPS"
    ∷ codes "AT+CEREG"
    ∷ codes "AT+CREG"
    ∷ codes "AT+CGREG"
    ∷ codes "AT+CGDCONT"
    ∷ codes "AT+QENG"
    ∷ codes "AT+QNWINFO"
    ∷ codes "AT+QSPN"
    ∷ []

-- `b.is_ascii() && !b.is_ascii_control()`; a character outside ASCII has only bytes above it.
abbrev pub is_plain : ℕ → Bool
is_plain c = leb 32 c && ltb c 127

-- `to_uppercase`, which is reached with ASCII only.
abbrev upper_char : ℕ → ℕ
upper_char c = if leb 97 c && leb c 122 then c - 32 else c

unfoldable pub to_uppercase : Text → Text
to_uppercase [] = []
to_uppercase (c ∷ s) = upper_char c ∷ to_uppercase s

-- `suffix.is_empty() || suffix == "?" || suffix == "=?"`
abbrev pub is_query_suffix : Text → Bool
is_query_suffix s = is_empty s || text_eq s (codes "?") || text_eq s (codes "=?")

-- The loop over the prefixes with write forms: the first that fits decides.
unfoldable pub query_allowed : List Text → Text → Bool
query_allowed [] upper = false
query_allowed (prefix ∷ rest) upper =
    let later = query_allowed rest upper in
    elim (strip_prefix upper prefix) [ some suffix ↦ is_query_suffix suffix | none ↦ later ]

-- The tests on the upper-case command.
unfoldable pub allowed_upper : Text → Bool
allowed_upper upper =
    if contains_char upper b';'
    then false
    else if any (λ p. starts_with upper p) safe_at_prefixes
    then true
    else query_allowed query_only_at_prefixes upper

unfoldable pub is_allowed_at_command : Text → Bool
is_allowed_at_command cmd =
    let trimmed = trim cmd in
    if not (all is_plain trimmed) then false else allowed_upper (to_uppercase trimmed)

-- `ModemError`
pub data ModemError : Type 0 where
  dbus : Text → ModemError
  timeout : ModemError
  no_modem : ModemError
  unsupported_modem : Text → ModemError

-- `Display for ModemError`
unfoldable pub show_error : ModemError → Text
show_error (dbus m) = codes "D-Bus error: " ++ m
show_error timeout = codes "AT command timeout"
show_error no_modem = codes "no modem found"
show_error (unsupported_modem m) = codes "unsupported modem model: " ++ m

-- What a call of `ModemAccess::command` answers. It is not part of the handler.
abbrev pub Modem : Type 0
Modem = Text → ℕ → Result Text ModemError

-- The calls of `ModemAccess::command`, each a command and a timeout, the first in front.
abbrev pub Calls : Type 0
Calls = List (Text × ℕ)

unfoldable pub modem_reply : Text → Result Text ModemError → Result CommandResultData Text
modem_reply cmd (ok response) = ok (modem_result (record { command = cmd; response = response }))
modem_reply cmd (err e) =
    err (codes "AT command '" ++ (cmd ++ (codes "' failed: " ++ show_error e)))

unfoldable pub at_timeout : Option ℕ → ℕ
at_timeout none = min default_at_timeout_ms max_at_timeout_ms
at_timeout (some t) = min t max_at_timeout_ms

unfoldable pub run_at_command : Option Modem → ModemCommandPayload → Calls → HandlerExit × Calls
unfolding modem_reply
run_at_command modem p calls =
    if not (is_allowed_at_command p.command)
    then (finished (err (codes "AT command '" ++ (p.command ++ codes "' is not allowed"))), calls)
    else elim modem [
      | none ↦ (finished (err (codes "modem not available")), calls)
      | some command ↦
          let t = at_timeout p.timeout_ms in
          (finished (modem_reply p.command (command p.command t)), calls ++ (p.command, t) ∷ [])
    ]

unfoldable pub dispatch_modem :
    {V : Type 0} → Option Modem → CommandPayload V → Calls → HandlerExit × Calls
unfolding run_at_command
dispatch_modem modem (modem_commands p) calls = run_at_command modem p calls
dispatch_modem modem _ calls = (finished (err (codes "expected ModemCommands payload")), calls)

-- `ModemCommandsHandler::handle`; `modem` is what `Context::get_modem` returns.
unfoldable pub handle_modem_commands : {V : Type 0} → Option Modem → Handler V Calls
unfolding dispatch_modem
handle_modem_commands modem e calls = dispatch_modem modem e.payload calls
