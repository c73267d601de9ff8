-- ===== src/Modem/Registration.antt =====
-- services/modem_access/mod.rs: which status the query of the registration finds.
use uswarm_unitctl.Base.{
  ℕ, ◌≤◌, ◌≡◌, refl, ap, sym, ◌∙◌, Bool, true, false, all, all-append, Option, none, some, [], ◌∷◌,
  ◌++◌, Text, codes, append_assoc, if◌then◌else◌, is_empty, trim, split, split_whole, split-append,
  decimal, decimal-digits, decimal_nonempty, is_digit, is_free_of, free_of_digits, lines-append,
  trim_between, trim_field, strip_prefix, trim_start, is_whitespace, field_of_digits, parse_u8,
  ◌==◌, digits_value-decimal, digits_value, arith, Result, ok,
}
use uswarm_unitctl.Modem.Types.{from_code}
use uswarm_unitctl.Handlers.Modem.{ModemError}
use uswarm_unitctl.Modem.Access.{
  parse_registration_response, find_registration, registration_line, Answer, first_status,
  parsed_or, default_registration_status,
}

-- A line that reports a status: `+CREG: n,stat` or `+CEREG: n,stat`.
abbrev pub report_line : Bool → ℕ → ℕ → Text
report_line eps n stat =
    (if eps then codes "+CEREG: " else codes "+CREG: ") ++ (decimal n ++ b',' ∷ decimal stat)

digits_free : (c n : ℕ) → is_digit c ≡ false → is_free_of c (decimal n) ≡ true
digits_free c n h = free_of_digits c (decimal n) h (decimal-digits n)

report_fields :
    (n stat : ℕ) → split b',' (decimal n ++ b',' ∷ decimal stat) ≡ decimal n ∷ decimal stat ∷ []
report_fields n stat =
    split-append b',' (decimal n) (decimal stat) (digits_free b',' n refl)
    ∙ ap (λ ws. decimal n ∷ ws) (split_whole b',' (decimal stat) (digits_free b',' stat refl))

parse_u8_digits :
    (s : Text) (n : ℕ)
    → is_empty s ≡ false
    → all is_digit s ≡ true
    → digits_value 0 s ≡ some n
    → n ≤ 255
    → parse_u8 s ≡ some n
unfolding parse_u8
parse_u8_digits [] n e d v h = ground arith
parse_u8_digits (c ∷ s) n e d v h =
    let plus : (c == b'+') ≡ false = ground arith in rw (plus, v) ground arith

-- A report line begins with a sign and ends with the digits of the status.
report_ends :
    (eps : Bool) (n stat : ℕ)
    → report_line eps n stat
      ≡ codes "+"
        ++ (((if eps then codes "CEREG: " else codes "CREG: ") ++ (decimal n ++ b',' ∷ []))
            ++ decimal stat)
report_ends true n stat =
    ap (λ t. codes "+CEREG: " ++ t) (sym (append_assoc (decimal n) (b',' ∷ []) (decimal stat)))
report_ends false n stat =
    ap (λ t. codes "+CREG: " ++ t) (sym (append_assoc (decimal n) (b',' ∷ []) (decimal stat)))

trim_report : (eps : Bool) (n stat : ℕ) → trim (report_line eps n stat) ≡ report_line eps n stat
trim_report eps n stat =
    let name : Text = if eps then codes "CEREG: " else codes "CREG: " in
    ap trim (report_ends eps n stat)
    ∙ trim_between (codes "+") (name ++ (decimal n ++ b',' ∷ [])) (decimal stat) refl refl
        (decimal_nonempty stat) (field_of_digits (decimal stat) (decimal-digits stat))
    ∙ sym (report_ends eps n stat)

trim_fields :
    (n stat : ℕ)
    → trim (b' ' ∷ (decimal n ++ b',' ∷ decimal stat)) ≡ decimal n ++ b',' ∷ decimal stat
unfolding trim trim_start is_whitespace
trim_fields n stat =
    trim_between (decimal n) (b',' ∷ []) (decimal stat) (decimal_nonempty n)
      (field_of_digits (decimal n) (decimal-digits n)) (decimal_nonempty stat)
      (field_of_digits (decimal stat) (decimal-digits stat))

fields_free : (n stat : ℕ) → is_free_of b':' (b' ' ∷ (decimal n ++ b',' ∷ decimal stat)) ≡ true
fields_free n stat = ground (
  arith,
  all-append (λ d. if d == b':' then false else true) (decimal n) (b',' ∷ decimal stat),
  digits_free b':' n refl,
  digits_free b':' stat refl,
)

-- The line is cut at its only colon.
report_colon :
    (eps : Bool) (n stat : ℕ)
    → split b':' (report_line eps n stat)
      ≡ (if eps then codes "+CEREG" else codes "+CREG")
        ∷ (b' ' ∷ (decimal n ++ b',' ∷ decimal stat))
        ∷ []
report_colon true n stat =
    split-append b':' (codes "+CEREG") (b' ' ∷ (decimal n ++ b',' ∷ decimal stat)) refl
    ∙ ap (λ ws. codes "+CEREG" ∷ ws) (split_whole b':' _ (fields_free n stat))
report_colon false n stat =
    split-append b':' (codes "+CREG") (b' ' ∷ (decimal n ++ b',' ∷ decimal stat)) refl
    ∙ ap (λ ws. codes "+CREG" ∷ ws) (split_whole b':' _ (fields_free n stat))

parse_code : (stat : ℕ) → stat ≤ 255 → parse_u8 (trim (decimal stat)) ≡ some stat
parse_code stat h =
    ap parse_u8 (trim_field (decimal stat) (field_of_digits (decimal stat) (decimal-digits stat)))
    ∙ parse_u8_digits (decimal stat) stat (decimal_nonempty stat) (decimal-digits stat)
        (digits_value-decimal stat) h

registration_line-report :
    (eps : Bool) (n stat : ℕ)
    → stat ≤ 255
    → registration_line (report_line eps n stat) ≡ some (some (from_code stat))
unfolding registration_line strip_prefix
registration_line-report true n stat h =
    rw (report_colon true n stat, trim_fields n stat, report_fields n stat, parse_code stat h) refl
registration_line-report false n stat h =
    rw (report_colon false n stat, trim_fields n stat, report_fields n stat, parse_code stat h) refl

report_one_line : (eps : Bool) (n stat : ℕ) → is_free_of 10 (report_line eps n stat) ≡ true
report_one_line true n stat = ground (
  arith,
  all-append (λ d. if d == 10 then false else true) (decimal n) (b',' ∷ decimal stat),
  digits_free 10 n refl,
  digits_free 10 stat refl,
)
report_one_line false n stat = ground (
  arith,
  all-append (λ d. if d == 10 then false else true) (decimal n) (b',' ∷ decimal stat),
  digits_free 10 n refl,
  digits_free 10 stat refl,
)

-- A response whose first line is `+CREG: n,stat` or `+CEREG: n,stat`, with `n` and `stat` as printed
-- numbers and `stat` at most 255, is parsed to the registration that the code `stat` stands for,
-- whatever follows the line.
pub parse_registration_response-report :
    (eps : Bool) (n stat : ℕ) (rest : Text)
    → stat ≤ 255
    → parse_registration_response (report_line eps n stat ++ 13 ∷ 10 ∷ rest) ≡ some (from_code stat)
unfolding parse_registration_response find_registration
parse_registration_response-report eps n stat rest h =
    rw
      (
        lines-append (report_line eps n stat) rest (report_one_line eps n stat),
        find_registration,
        trim_report eps n stat,
        registration_line-report eps n stat h,
      )
      refl

parsed :
    {T : Type 0} (parse : Text → Option T) (message resp : Text) {t : T}
    → parse resp ≡ some t
    → parsed_or parse message (ok resp) ≡ ok t
parsed parse message resp h = rw (parsed_or, h) refl

-- Where the query of the 4G registration fails or its response has no status, the default
-- `registration_status` sends AT+CREG?, and a report of a status of at most 255 as the first line of
-- its response decides.
pub default_registration_status_fallback :
    {S : Type 0} (command : Text → ℕ → S → Answer Text S) (s s' s'' : S)
    (eps : Result Text ModemError) (n stat : ℕ) (rest : Text)
    → command (codes "AT+CEREG?") 3000 s ≡ (eps, s')
    → first_status eps ≡ none
    → command (codes "AT+CREG?") 3000 s' ≡ (ok (report_line false n stat ++ 13 ∷ 10 ∷ rest), s'')
    → stat ≤ 255
    → default_registration_status command s ≡ (ok (from_code stat), s'')
unfolding default_registration_status
default_registration_status_fallback command s s' s'' eps n stat rest first none_found second h =
    rw (default_registration_status, first, none_found, first, second)
      (ap (λ r. (r, s''))
        (parsed parse_registration_response _ _
          (parse_registration_response-report false n stat rest h)))
