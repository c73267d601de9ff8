-- ===== src/Sensors/Lte/Parse.antt =====
-- sensors/lte.rs: the parsers of the modem's responses.
use uswarm_unitctl.Base.{
  ℕ, Bool, true, false, Option, none, some, List, [], Text, codes, trim, split, contains, get_elem?,
  length, ltb, if◌then◌else◌, ℤ, pos, quotient, parse_i32, trim_quotes,
}
use uswarm_unitctl.Messages.Telemetry.{LteSignalQuality, LteNeighborCell}
use uswarm_unitctl.Modem.Types.{ModemType, simcom7600, quectel_em12, quectel_em06e, quectel_em06gl}

abbrev or_zero : Option ℤ → ℤ
or_zero none = pos 0
or_zero (some z) = z

-- `parse_i32_field`
unfoldable pub parse_i32_field : Text → ℤ
parse_i32_field s = or_zero (parse_i32 (trim_quotes (trim s)))

-- `parts[i]`, which is read only where the index is in range.
abbrev pub part : List Text → ℕ → Text
part parts i = elim (get_elem? parts i) [ none ↦ [] | some s ↦ s ]

abbrev pub field : List Text → ℕ → ℤ
field parts i = parse_i32_field (part parts i)

abbrev simcom_signal : List Text → Option LteSignalQuality
simcom_signal parts =
    if ltb (length parts) 14
    then none
    else some (record {
      pcid = field parts 5;
      earfcn = field parts 7;
      rsrq = quotient (field parts 10) 10;
      rsrp = quotient (field parts 11) 10;
      rssi = quotient (field parts 12) 10;
      rssnr = field parts 13;
      tx_power = pos 0;
    })

unfoldable pub parse_simcom_cpsi : Text → Option LteSignalQuality
unfolding parse_i32_field
parse_simcom_cpsi response = elim (get_elem? (split b':' response) 1) [
  | none ↦ none
  | some after_colon ↦ simcom_signal (split b',' (trim after_colon))
]

unfoldable pub parse_quectel_em12_serving : Text → Option LteSignalQuality
unfolding parse_i32_field
parse_quectel_em12_serving response =
    let parts = split b',' response in
    if contains response (codes "servingcell")
    then if ltb (length parts) 20
      then none
      else some (record {
        pcid = field parts 7;
        earfcn = field parts 8;
        rsrp = field parts 13;
        rsrq = field parts 14;
        rssi = field parts 15;
        rssnr = field parts 16;
        tx_power = field parts 18;
      })
    else none

unfoldable pub parse_quectel_em06gl_serving : Text → Option LteSignalQuality
unfolding parse_i32_field
parse_quectel_em06gl_serving response =
    let parts = split b',' response in
    if contains response (codes "servingcell")
    then if ltb (length parts) 19
      then none
      else some (record {
        pcid = field parts 7;
        earfcn = field parts 8;
        rsrp = field parts 13;
        rsrq = field parts 14;
        rssi = field parts 15;
        rssnr = field parts 16;
        tx_power = field parts 17;
      })
    else none

unfoldable pub parse_quectel_em06e_serving : Text → Option LteSignalQuality
unfolding parse_i32_field
parse_quectel_em06e_serving response =
    let parts = split b',' response in
    if contains response (codes "servingcell")
    then if ltb (length parts) 18
      then none
      else some (record {
        pcid = field parts 7;
        earfcn = field parts 8;
        rsrp = field parts 13;
        rsrq = field parts 14;
        rssi = field parts 15;
        rssnr = field parts 16;
        tx_power = pos 0;
      })
    else none

unfoldable pub parse_quectel_neighbor : Text → Option LteNeighborCell
unfolding parse_i32_field
parse_quectel_neighbor line =
    let parts = split b',' line in
    if contains line (codes "neighbourcell")
    then if ltb (length parts) 8
      then none
      else some (record {
        pcid = field parts 3;
        earfcn = field parts 2;
        rsrq = field parts 4;
        rsrp = field parts 5;
        rssi = field parts 6;
        rssnr = field parts 7;
        last_seen = 0;
      })
    else none

unfoldable pub parse_serving_cell : ModemType → Text → Option LteSignalQuality
unfolding parse_simcom_cpsi parse_quectel_em12_serving parse_quectel_em06gl_serving
    parse_quectel_em06e_serving
parse_serving_cell simcom7600 response = parse_simcom_cpsi response
parse_serving_cell quectel_em12 response = parse_quectel_em12_serving response
parse_serving_cell quectel_em06gl response = parse_quectel_em06gl_serving response
parse_serving_cell quectel_em06e response = parse_quectel_em06e_serving response

unfoldable pub serving_cell_command : ModemType → Text
serving_cell_command simcom7600 = codes "AT+CPSI?"
serving_cell_command quectel_em12 = codes "AT+QENG=\"servingcell\""
serving_cell_command quectel_em06e = codes "AT+QENG=\"servingcell\""
serving_cell_command quectel_em06gl = codes "AT+QENG=\"servingcell\""

unfoldable pub supports_neighbor_query : ModemType → Bool
supports_neighbor_query quectel_em12 = true
supports_neighbor_query _ = false
