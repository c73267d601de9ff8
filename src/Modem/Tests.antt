-- ===== src/Modem/Tests.antt =====
-- services/modem_access: a discovery in two rounds, a query that falls back, and the fake modem.
use uswarm_unitctl.Base.{
  ℕ, ◌+◌, ◌≡◌, refl, false, some, List, [], ◌∷◌, ◌++◌, Text, codes, text_eq, strip_prefix, trim,
  trim_start, is_whitespace, lines, lines_from, contains, split, parse_u8, digits_value,
  if◌then◌else◌, Result, ok, err, arith,
}
use uswarm_unitctl.Handlers.Modem.{ModemError, timeout}
use uswarm_unitctl.Modem.Types.{
  detect_modem_type, first_identified, quectel_em06gl, quectel_em06e, from_code, registered_home,
}
use uswarm_unitctl.Modem.Access.{
  Answer, default_imsi, parse_cimi_response, find_digits, default_registration_status,
  parse_registration_response, find_registration, registration_line,
}
use uswarm_unitctl.Modem.Discovery.{
  discover_with_retry, discover_with_retry-first, discovery_round, try_modems, candidates,
  first_suitable, found_or_cancelled,
}
use uswarm_unitctl.Modem.Registration.{report_line, default_registration_status_fallback}
use uswarm_unitctl.Modem.Fake.{fake_modem, fake_command}

em06gl_first : detect_modem_type (codes "Quectel EM060K-GL") ≡ some quectel_em06gl
unfolding detect_modem_type first_identified contains strip_prefix
em06gl_first = refl

em06e_last : detect_modem_type (codes "EM06-E") ≡ some quectel_em06e
unfolding detect_modem_type first_identified contains strip_prefix
em06e_last = refl

-- A modem is its model's text.
abbrev model_of : Text → Result Text ModemError
model_of model = ok model

abbrev two_rounds : List (Result (List Text) ModemError)
two_rounds = err timeout ∷ ok (codes "X" ∷ codes "EM12-G" ∷ []) ∷ []

discover_with_retry-first_example :
    discover_with_retry model_of two_rounds
    ≡ found_or_cancelled (first_suitable model_of (candidates two_rounds))
discover_with_retry-first_example = discover_with_retry-first model_of two_rounds

second_round : discover_with_retry model_of two_rounds ≡ ok (codes "EM12-G")
unfolding discover_with_retry discovery_round try_modems detect_modem_type first_identified contains
    strip_prefix
second_round = refl

-- A modem that answers nothing on 4G and counts its commands.
abbrev circuit_only : Text → ℕ → ℕ → Answer Text ℕ
circuit_only cmd timeout_ms s =
    if text_eq cmd (codes "AT+CREG?")
    then (ok (report_line false 0 5 ++ 13 ∷ 10 ∷ codes "OK"), s + 1)
    else (err timeout, s + 1)

roaming_found : default_registration_status circuit_only 0 ≡ (ok (from_code 5), 2)
unfolding text_eq
roaming_found =
    default_registration_status_fallback circuit_only 0 1 2 (err timeout) 0 5 (codes "OK") refl refl
      refl (ground arith)

fake_registration : fake_modem.registration_status 7 ≡ (ok registered_home, 7)
unfolding fake_modem fake_command default_registration_status parse_registration_response
    find_registration registration_line lines lines_from trim trim_start is_whitespace strip_prefix
    split parse_u8 digits_value from_code
fake_registration = refl

-- The IMSI that the trait's own method reads from the fake modem is the one that it reports.
fake_imsi_read : default_imsi fake_command 7 ≡ fake_modem.imsi 7
unfolding fake_modem fake_command default_imsi parse_cimi_response find_digits lines lines_from trim
    trim_start is_whitespace strip_prefix
fake_imsi_read = refl
