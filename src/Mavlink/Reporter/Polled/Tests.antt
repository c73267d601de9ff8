-- ===== src/Mavlink/Reporter/Polled/Tests.antt =====
-- mavlink/telemetry_reporter.rs and sensors/lte.rs: the reporter after two ticks of the sensor with the
-- fake modem.
use mathlib.Core.List.{Permᴰ}
use uswarm_unitctl.Base.{
  ◌≡◌, refl, false, some, reverse, List, [], ◌∷◌, take, parse_i32, digits_value, trim, trim_start,
  trim_quotes, is_whitespace, contains, strip_prefix, split, lines, lines_from, ok, show_int, join,
  decimal,
}
use uswarm_unitctl.Float.{F64, scaled_up, is_nat_le, u64_as_f64}
use uswarm_unitctl.Messages.Telemetry.{LteNeighborCell, LteReading, cells}
use uswarm_unitctl.Modem.Types.{quectel_em12, detect_modem_type, first_identified}
use uswarm_unitctl.Modem.Access.{discover_modem}
use uswarm_unitctl.Modem.Fake.{fake_modem, fake_imsi}
use uswarm_unitctl.Sensors.Lte.Fake.{fake_signal, fake_neighbors}
use uswarm_unitctl.Sensors.Lte.Poll.{poll_loop}
use uswarm_unitctl.Mavlink.Reporter.{sort_by_pcid, neighbor_messages}
use uswarm_unitctl.Mavlink.Reporter.Polled.{neighbor_messages-poll_loop}

abbrev one_minute : F64
one_minute = scaled_up false 60 0

found : discover_modem fake_modem 0 ≡ (ok quectel_em12, 0)
unfolding discover_modem fake_modem detect_modem_type first_identified contains strip_prefix
found = refl

abbrev second_reading : LteReading
second_reading = record {
  imsi = fake_imsi;
  signal = fake_signal 1;
  neighbors = fake_neighbors 1005 2;
}

-- Its cells, with the one of the id 200 first.
abbrev swapped_cells : List LteNeighborCell
swapped_cells = reverse (cells second_reading.neighbors)

stored : (poll_loop fake_modem one_minute (1000 ∷ 1005 ∷ []) 0).reading ≡ some second_reading
unfolding poll_loop fake_modem detect_modem_type first_identified contains strip_prefix parse_i32
    digits_value trim trim_start trim_quotes is_whitespace split lines lines_from show_int join
    decimal is_nat_le u64_as_f64
stored = refl

neighbor_messages-poll_loop_example :
    neighbor_messages 1 10 0 (take 10 (sort_by_pcid (cells second_reading.neighbors)))
    ≡ neighbor_messages 1 10 0 (take 10 (sort_by_pcid (swapped_cells)))
neighbor_messages-poll_loop_example =
    neighbor_messages-poll_loop fake_modem one_minute (1000 ∷ 1005 ∷ []) 0 0 quectel_em12
      second_reading 1 10 swapped_cells found stored (Permᴰ.swap refl refl)
