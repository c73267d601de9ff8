-- ===== src/Modem/Access.antt =====
-- services/modem_access/mod.rs: the trait `ModemAccess` with its default methods, the parsers of the
-- responses these read, and the two functions over the trait. `S` is the state of a modem, which each
-- call may change.
use uswarm_unitctl.Base.{
  ℕ, ◌&&◌, not, ◌||◌, Option, none, some, List, [], ◌∷◌, Text, codes, is_empty, all, trim, split,
  starts_with, is_digit, get_elem?, parse_u8, lines, if◌then◌else◌, Result, ok, err,
}
use uswarm_unitctl.Handlers.Modem.{ModemError, dbus, unsupported_modem}
use uswarm_unitctl.Modem.Types.{ModemType, NetworkRegistration, from_code, detect_modem_type}

abbrev pub Answer : Type 0 → Type 0 → Type 0
Answer T S = Result T ModemError × S

pub record ModemAccess (S : Type 0) : Type 0 where
  pub model : S → Answer Text S
  pub command : Text → ℕ → S → Answer Text S
  pub imsi : S → Answer Text S
  pub registration_status : S → Answer NetworkRegistration S

-- `parse_cimi_response`: the first line, trimmed, that has digits and nothing else.
unfoldable pub find_digits : List Text → Option Text
find_digits [] = none
find_digits (l ∷ ls) =
    let rest = find_digits ls in
    if not (is_empty (trim l)) && all is_digit (trim l) then some (trim l) else rest

unfoldable pub parse_cimi_response : Text → Option Text
unfolding find_digits
parse_cimi_response response = find_digits (lines response)

-- What stands after the first colon of a line, up to the next: `parts[1]` as a code.
abbrev code_of : List Text → Option NetworkRegistration
code_of (n ∷ stat ∷ _) = elim (parse_u8 (trim stat)) [
  | some code ↦ some (from_code code)
  | none ↦ none
]
code_of _ = none

-- A line of the response, trimmed: `some` is a return from the loop, `none` goes on.
unfoldable pub registration_line : Text → Option (Option NetworkRegistration)
registration_line line =
    if starts_with line (codes "+CREG:") || starts_with line (codes "+CEREG:")
    then elim (get_elem? (split b':' line) 1) [
      | none ↦ some none
      | some fields ↦ elim (code_of (split b',' (trim fields))) [
        | some r ↦ some (some r)
        | none ↦ none
      ]
    ]
    else none

unfoldable pub find_registration : List Text → Option NetworkRegistration
unfolding registration_line
find_registration [] = none
find_registration (l ∷ ls) =
    let rest = find_registration ls in
    elim (registration_line (trim l)) [ some result ↦ result | none ↦ rest ]

unfoldable pub parse_registration_response : Text → Option NetworkRegistration
unfolding find_registration
parse_registration_response response = find_registration (lines response)

-- `parse(&resp).ok_or_else(..)` after the `?` of the command.
abbrev pub parsed_or :
    {T : Type 0} → (Text → Option T) → Text → Result Text ModemError → Result T ModemError
parsed_or parse message (err e) = err e
parsed_or parse message (ok resp) = elim (parse resp) [ some t ↦ ok t | none ↦ err (dbus message) ]

-- The response to AT+CEREG?, if there is one and it has a status.
abbrev pub first_status : Result Text ModemError → Option NetworkRegistration
first_status (err e) = none
first_status (ok resp) = parse_registration_response resp

abbrev pub identified : Result Text ModemError → Result ModemType ModemError
identified (err e) = err e
identified (ok model) = elim (detect_modem_type model) [
  | some t ↦ ok t
  | none ↦ err (unsupported_modem model)
]

module _ {S : Type 0} where
  -- `ModemAccess::imsi`, where it is not overridden.
  unfoldable pub default_imsi : (Text → ℕ → S → Answer Text S) → S → Answer Text S
  default_imsi command s =
      let (resp, s') = command (codes "AT+CIMI") 3000 s in
      (parsed_or parse_cimi_response (codes "failed to parse IMSI from AT+CIMI response") resp, s')

  -- `ModemAccess::registration_status`, where it is not overridden.
  unfoldable pub default_registration_status :
      (Text → ℕ → S → Answer Text S) → S → Answer NetworkRegistration S
  default_registration_status command s =
      let (eps, s') = command (codes "AT+CEREG?") 3000 s in
      elim (first_status eps) [
        | some status ↦ (ok status, s')
        | none ↦
            let (circuit, s'') = command (codes "AT+CREG?") 3000 s' in
            (
              parsed_or parse_registration_response (codes "failed to parse registration status")
                  circuit,
              s'',
            )
      ]

  -- `discover_modem`
  unfoldable pub discover_modem : ModemAccess S → S → Answer ModemType S
  discover_modem modem s = let (model, s') = modem.model s in (identified model, s')

  -- `send_at_command`
  unfoldable pub send_at_command : ModemAccess S → Text → ℕ → S → Answer Text S
  send_at_command modem cmd timeout_ms s = modem.command cmd timeout_ms s
