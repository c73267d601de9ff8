-- ===== src/Sensors/Lte/Tests.antt =====
-- sensors/lte.rs: the sensor with the fake modem.
use uswarm_unitctl.Base.{
  ℕ, ◌≡◌, refl, false, some, List, [], ◌∷◌, Text, codes, pos, negsuc, parse_i32, digits_value, trim,
  trim_start, trim_quotes, is_whitespace, contains, strip_prefix, split, lines, ok,
}
use uswarm_unitctl.Float.{F64, scaled_up}
use uswarm_unitctl.Messages.Telemetry.{LteNeighborCell}
use uswarm_unitctl.Modem.Types.{quectel_em12, detect_modem_type, first_identified}
use uswarm_unitctl.Modem.Access.{discover_modem}
use uswarm_unitctl.Modem.Fake.{fake_modem, fake_command, next_counter, synth_neighbourcell}
use uswarm_unitctl.Sensors.Lte.Parse.{
  parse_serving_cell, serving_cell_command, parse_simcom_cpsi, parse_i32_field,
}
use uswarm_unitctl.Sensors.Lte.Neighbors.{observe, expire_neighbors}
use uswarm_unitctl.Sensors.Lte.Neighbors.Lookup.{lookup, if_fresh, reported, query-lookup}
use uswarm_unitctl.Sensors.Lte.Fake.{
  fake_signal, fake_neighbors, fake_command-parse_serving_cell, fake_command-observe,
}
use uswarm_unitctl.Sensors.Lte.Poll.{poll_loop, neighbor_command, text_or_empty}
use uswarm_unitctl.Sensors.Lte.Polled.{
  alternating, IsPolled, poll_loop-alternating, poll_loop-IsPolled,
}

fake_command-parse_serving_cell_example :
    (text : Text) × (fake_command (serving_cell_command quectel_em12) 3000 41
      ≡ (ok text, next_counter 41))
    × (parse_serving_cell quectel_em12 text ≡ some (fake_signal (next_counter 41)))
fake_command-parse_serving_cell_example = fake_command-parse_serving_cell 3000 41

fake_command-observe_example :
    (text : Text) × (fake_command neighbor_command 3000 41 ≡ (ok text, next_counter 41))
    × (observe (pos 250) 1000 (lines text) [] ≡ fake_neighbors 1000 (next_counter 41))
fake_command-observe_example = fake_command-observe 3000 41 1000

-- One cell that was last seen at 900, before a query at 1000 with an expiry of 60 seconds.
abbrev old_cell : LteNeighborCell
old_cell = record {
  pcid = pos 100;
  rsrp = negsuc 99;
  rsrq = negsuc 9;
  rssi = negsuc 69;
  rssnr = pos 3;
  earfcn = pos 1850;
  last_seen = 900;
}

abbrev one_minute : F64
one_minute = scaled_up false 60 0

query-lookup_example :
    lookup (pos 100) (
      expire_neighbors one_minute 1000
        (observe (pos 250) 1000 (lines (synth_neighbourcell 1)) ((pos 100, old_cell) ∷ [])))
    ≡ if_fresh one_minute 1000 (
        reported
          (pos 250)
          1000
          (pos 100)
          (lines (synth_neighbourcell 1))
          (lookup (pos 100) ((pos 100, old_cell) ∷ [])))
unfolding lookup
query-lookup_example =
    query-lookup (pos 250) one_minute 1000 (pos 100) (lines (synth_neighbourcell 1))
      ((pos 100, old_cell) ∷ []) (refl, tt)

fake_found : discover_modem fake_modem 0 ≡ (ok quectel_em12, 0)
unfolding discover_modem fake_modem detect_modem_type first_identified contains strip_prefix
fake_found = refl

abbrev ticks : List ℕ
ticks = 1000 ∷ 1005 ∷ 1010 ∷ []

poll_loop-alternating_example :
    (poll_loop fake_modem one_minute ticks 0).sent ≡ alternating quectel_em12 false ticks
poll_loop-alternating_example =
    poll_loop-alternating fake_modem one_minute ticks 0 0 quectel_em12 fake_found

poll_loop-IsPolled_example :
    IsPolled (text_or_empty (fake_modem.imsi 0).0) (poll_loop fake_modem one_minute ticks 0)
poll_loop-IsPolled_example =
    poll_loop-IsPolled fake_modem one_minute ticks 0 0 quectel_em12 fake_found

-- Tenths are rounded towards zero.
simcom_sample :
    parse_simcom_cpsi
      (codes "+CPSI: LTE,Online,001-01,0x1,7,250,EUTRAN-BAND3,1850,5,5,-101,-905,-655,12")
    ≡ some (record {
      pcid = pos 250;
      earfcn = pos 1850;
      rsrq = negsuc 9;
      rsrp = negsuc 89;
      rssi = negsuc 64;
      rssnr = pos 12;
      tx_power = pos 0;
    })
unfolding parse_simcom_cpsi parse_i32_field parse_i32 digits_value trim trim_start trim_quotes
    is_whitespace split
simcom_sample = refl
