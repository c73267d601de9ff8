-- ===== src/Sensors/Lte/Fake.antt =====
-- sensors/lte.rs on the responses of services/modem_access/fake.rs.
use uswarm_unitctl.Base.{
  ℕ, ◌+◌, ◌%◌, ◌^◌, ◌<◌, ◌≡◌, refl, ap, ◌∙◌, true, none, some, List, [], ◌∷◌, ◌++◌, Text, codes,
  trim, trim_start, is_whitespace, split, strip_prefix, contains, is_free_of, leb, Bool-cases, inl,
  inr, join, split-join, is_free_of-join, lines_from, ℤ, pos, negsuc, ◌⊖◌, IsI32, show_int,
  parse_i32-show_int, trim_field, trim_quotes_field, field-show_int, is_free_of-show_int, lines,
  lines-append, arith, ok,
}
use uswarm_unitctl.Messages.Telemetry.{LteSignalQuality}
use uswarm_unitctl.Modem.Types.{quectel_em12}
use uswarm_unitctl.Modem.Fake.{
  serving_line, neighbour_line, synth_servingcell, synth_neighbourcell, drift, fake_command,
  next_counter, crlf_ok,
}
use uswarm_unitctl.Sensors.Lte.Neighbors.{Neighbors, observe, insert_cell}
use uswarm_unitctl.Sensors.Lte.Poll.{neighbor_command}
use uswarm_unitctl.Sensors.Lte.Parse.{
  parse_i32_field, parse_quectel_em12_serving, parse_quectel_neighbor, parse_serving_cell,
  serving_cell_command,
}

-- A printed `i32` as a field is read back.
field_lem : (z : ℤ) → IsI32 z → parse_i32_field (show_int z) ≡ z
unfolding parse_i32_field
field_lem z h =
    rw
      (
        trim_field (show_int z) (field-show_int z),
        trim_quotes_field (show_int z) (field-show_int z),
        parse_i32-show_int z h,
      )
      refl

serving_fields : ℤ → ℤ → ℤ → ℤ → ℤ → ℤ → ℤ → List Text
serving_fields pcid earfcn rsrp rsrq rssi rssnr tx_power =
    codes "+QENG: \"servingcell\""
    ∷ codes "\"NOCONN\""
    ∷ codes "\"LTE\""
    ∷ codes "\"FDD\""
    ∷ codes "001"
    ∷ codes "01"
    ∷ codes "\"1A2B3C4D\""
    ∷ show_int pcid
    ∷ show_int earfcn
    ∷ codes "3"
    ∷ codes "5"
    ∷ codes "5"
    ∷ codes "\"1234\""
    ∷ show_int rsrp
    ∷ show_int rsrq
    ∷ show_int rssi
    ∷ show_int rssnr
    ∷ codes "10"
    ∷ show_int tx_power
    ∷ (codes "42" ++ crlf_ok)
    ∷ []

serving_split :
    (a b c d e f g : ℤ) → split b',' (serving_line a b c d e f g) ≡ serving_fields a b c d e f g
unfolding serving_line serving_fields join
serving_split a b c d e f g = split-join b',' (codes "+QENG: \"servingcell\"") _ (
    rw
      (
        is_free_of-show_int b',' a refl,
        is_free_of-show_int b',' b refl,
        is_free_of-show_int b',' c refl,
        is_free_of-show_int b',' d refl,
        is_free_of-show_int b',' e refl,
        is_free_of-show_int b',' f refl,
        is_free_of-show_int b',' g refl,
      )
      refl)

contains_serving :
    (a b c d e f g : ℤ) → contains (serving_line a b c d e f g) (codes "servingcell") ≡ true
unfolding serving_line contains strip_prefix
contains_serving a b c d e f g = refl

parse_serving_line :
    (a b c d e f g : ℤ)
    → IsI32 a
    → IsI32 b
    → IsI32 c
    → IsI32 d
    → IsI32 e
    → IsI32 f
    → IsI32 g
    → parse_quectel_em12_serving (serving_line a b c d e f g)
      ≡ some
          (record { rsrq = d; rsrp = c; rssi = e; rssnr = f; earfcn = b; tx_power = g; pcid = a })
unfolding parse_quectel_em12_serving serving_fields
parse_serving_line a b c d e f g ha hb hc hd he hf hg =
    rw
      (
        contains_serving a b c d e f g,
        serving_split a b c d e f g,
        field_lem a ha,
        field_lem b hb,
        field_lem c hc,
        field_lem d hd,
        field_lem e he,
        field_lem f hf,
        field_lem g hg,
      )
      refl

difference : (x b : ℕ) → x < 2 ^ 31 → b < 2 ^ 31 → IsI32 (x ⊖ b)
difference x b hx hb = elim (Bool-cases (leb b x)) [
  | inl h ↦ rw h (omega (arith, hx))
  | inr h ↦ rw h (omega (arith, hb))
]

drift_below : (m n k h : ℕ) → drift (negsuc m) n k (negsuc h) ≡ ((n % k) ⊖ (m + h + 2))
drift_below m n k h = elim (Bool-cases (leb (h + 1) (n % k))) [
  | inl e ↦ rw e ground arith
  | inr e ↦ rw e ground arith
]

drift_above : (m n k h : ℕ) → drift (pos m) n k (negsuc h) ≡ ((n % k + m) ⊖ (h + 1))
drift_above m n k h = elim (Bool-cases (leb (h + 1) (n % k))) [
  | inl e ↦ rw e ground arith
  | inr e ↦ rw e ground arith
]

-- What the fake modem's serving cell is to have been read as, for the value `n` of its counter.
abbrev pub fake_signal : ℕ → LteSignalQuality
fake_signal n = record {
  pcid = pos 250;
  earfcn = pos 1850;
  rsrp = (n % 21) ⊖ 100;
  rsrq = (n % 7) ⊖ 13;
  rssi = (n % 11) ⊖ 70;
  rssnr = (n % 11 + 5) ⊖ 5;
  tx_power = (n % 5) ⊖ 10;
}

neighbor_fields : ℤ → ℤ → ℤ → ℤ → ℤ → List Text
neighbor_fields pcid rsrq rsrp rssi rssnr =
    codes "+QENG: \"neighbourcell intra\""
    ∷ codes "\"LTE\""
    ∷ show_int (pos 1850)
    ∷ show_int pcid
    ∷ show_int rsrq
    ∷ show_int rsrp
    ∷ show_int rssi
    ∷ show_int rssnr
    ∷ codes "5"
    ∷ codes "8"
    ∷ codes "-"
    ∷ codes "-"
    ∷ []

neighbor_split : (a b c d e : ℤ) → split b',' (neighbour_line a b c d e) ≡ neighbor_fields a b c d e
unfolding neighbour_line neighbor_fields join
neighbor_split a b c d e = split-join b',' (codes "+QENG: \"neighbourcell intra\"") _ (
    rw
      (
        is_free_of-show_int b',' (pos 1850) refl,
        is_free_of-show_int b',' a refl,
        is_free_of-show_int b',' b refl,
        is_free_of-show_int b',' c refl,
        is_free_of-show_int b',' d refl,
        is_free_of-show_int b',' e refl,
      )
      refl)

contains_neighbor :
    (a b c d e : ℤ) → contains (neighbour_line a b c d e) (codes "neighbourcell") ≡ true
unfolding neighbour_line contains strip_prefix
contains_neighbor a b c d e = refl

parse_neighbour_line :
    (a b c d e : ℤ)
    → IsI32 a
    → IsI32 b
    → IsI32 c
    → IsI32 d
    → IsI32 e
    → parse_quectel_neighbor (neighbour_line a b c d e)
      ≡ some (record {
        pcid = a;
        rsrp = c;
        rsrq = b;
        rssi = d;
        rssnr = e;
        earfcn = pos 1850;
        last_seen = 0;
      })
unfolding parse_quectel_neighbor neighbor_fields
parse_neighbour_line a b c d e ha hb hc hd he =
    rw
      (
        contains_neighbor a b c d e,
        neighbor_split a b c d e,
        field_lem (pos 1850) (omega arith),
        field_lem a ha,
        field_lem b hb,
        field_lem c hc,
        field_lem d hd,
        field_lem e he,
      )
      refl

neighbour_one_line : (a b c d e : ℤ) → is_free_of 10 (neighbour_line a b c d e) ≡ true
unfolding neighbour_line neighbor_fields join
neighbour_one_line a b c d e = is_free_of-join 10 b',' (neighbor_fields a b c d e) refl (
    rw
      (
        is_free_of-show_int 10 (pos 1850) refl,
        is_free_of-show_int 10 a refl,
        is_free_of-show_int 10 b refl,
        is_free_of-show_int 10 c refl,
        is_free_of-show_int 10 d refl,
        is_free_of-show_int 10 e refl,
      )
      refl)

-- What the sensor is to have of the fake modem's neighbour cells.
abbrev pub fake_neighbors : ℕ → ℕ → Neighbors
fake_neighbors now n =
    (
      pos 100,
      record {
        pcid = pos 100;
        earfcn = pos 1850;
        rsrq = (n % 5) ⊖ 14;
        rsrp = (n % 21) ⊖ 110;
        rssi = (n % 11) ⊖ 80;
        rssnr = (n % 7 + 3) ⊖ 3;
        last_seen = now;
      },
    )
    ∷ (
      pos 200,
      record {
        pcid = pos 200;
        earfcn = pos 1850;
        rsrq = (n % 5) ⊖ 16;
        rsrp = (n % 21) ⊖ 115;
        rssi = (n % 11) ⊖ 85;
        rssnr = (n % 7 + 1) ⊖ 3;
        last_seen = now;
      },
    )
    ∷ []

first_line : ℕ → Text
first_line n =
    neighbour_line (pos 100) ((n % 5) ⊖ 14) ((n % 21) ⊖ 110) ((n % 11) ⊖ 80) ((n % 7 + 3) ⊖ 3)

second_line : ℕ → Text
second_line n =
    neighbour_line (pos 200) ((n % 5) ⊖ 16) ((n % 21) ⊖ 115) ((n % 11) ⊖ 85) ((n % 7 + 1) ⊖ 3)

neighbor_drifts :
    (n : ℕ)
    → synth_neighbourcell n ≡ first_line n ++ 13 ∷ 10 ∷ (second_line n ++ 13 ∷ 10 ∷ codes "OK")
unfolding synth_neighbourcell first_line second_line
neighbor_drifts n =
    rw
      (
        drift_below 11 n 5 1,
        drift_below 99 n 21 9,
        drift_below 74 n 11 4,
        drift_above 3 n 7 2,
        drift_below 13 n 5 1,
        drift_below 104 n 21 9,
        drift_below 79 n 11 4,
        drift_above 1 n 7 2,
      )
      refl

last_ok : lines (codes "OK") ≡ codes "OK" ∷ []
unfolding lines lines_from
last_ok = refl

parse_ok : parse_quectel_neighbor (codes "OK") ≡ none
unfolding parse_quectel_neighbor contains strip_prefix
parse_ok = refl

neighbor_lines :
    (n : ℕ) → lines (synth_neighbourcell n) ≡ first_line n ∷ second_line n ∷ codes "OK" ∷ []
unfolding first_line second_line
neighbor_lines n =
    ap lines (neighbor_drifts n)
    ∙ lines-append (first_line n) _ (neighbour_one_line _ _ _ _ _)
    ∙ ap (λ ls. first_line n ∷ ls)
        (lines-append (second_line n) _ (neighbour_one_line _ _ _ _ _)
          ∙ ap (λ ls. second_line n ∷ ls) last_ok)

serving_drifts :
    (n : ℕ)
    → synth_servingcell n
      ≡ serving_line
          (pos 250)
          (pos 1850)
          ((n % 21) ⊖ 100)
          ((n % 7) ⊖ 13)
          ((n % 11) ⊖ 70)
          ((n % 11 + 5) ⊖ 5)
          ((n % 5) ⊖ 10)
unfolding synth_servingcell
serving_drifts n =
    rw (drift_below 89 n 21 9, drift_below 9 n 7 2, drift_below 64 n 11 4, drift_above 5 n 11 4)
      refl

-- The fake modem's answer to the query of the serving cell that the sensor sends to an EM12 is parsed
-- to a signal with the ids of the cell and the values of the counter's bands: RSRP from -100, RSRQ
-- from -13, RSSI from -70, RSSNR from 0 and the transmission power from -10.
pub fake_command-parse_serving_cell :
    (timeout_ms counter : ℕ)
    → (text : Text) × (fake_command (serving_cell_command quectel_em12) timeout_ms counter
        ≡ (ok text, next_counter counter))
      × (parse_serving_cell quectel_em12 text ≡ some (fake_signal (next_counter counter)))
unfolding fake_command serving_cell_command trim trim_start is_whitespace strip_prefix
    parse_serving_cell
fake_command-parse_serving_cell timeout_ms counter =
    let n = next_counter counter in
    (
      synth_servingcell n,
      refl,
      ap parse_quectel_em12_serving (serving_drifts n)
          ∙ parse_serving_line _ _ _ _ _ _ _ (omega arith) (omega arith)
              (difference (n % 21) 100 (omega arith) (omega arith))
              (difference (n % 7) 13 (omega arith) (omega arith))
              (difference (n % 11) 70 (omega arith) (omega arith))
              (difference (n % 11 + 5) 5 (omega arith) (omega arith))
              (difference (n % 5) 10 (omega arith) (omega arith)),
    )

parse_first :
    (n : ℕ)
    → parse_quectel_neighbor (first_line n)
      ≡ some (record {
        pcid = pos 100;
        rsrp = (n % 21) ⊖ 110;
        rsrq = (n % 5) ⊖ 14;
        rssi = (n % 11) ⊖ 80;
        rssnr = (n % 7 + 3) ⊖ 3;
        earfcn = pos 1850;
        last_seen = 0;
      })
unfolding first_line
parse_first n =
    parse_neighbour_line _ _ _ _ _ (omega arith) (difference (n % 5) 14 (omega arith) (omega arith))
      (difference (n % 21) 110 (omega arith) (omega arith))
      (difference (n % 11) 80 (omega arith) (omega arith))
      (difference (n % 7 + 3) 3 (omega arith) (omega arith))

parse_second :
    (n : ℕ)
    → parse_quectel_neighbor (second_line n)
      ≡ some (record {
        pcid = pos 200;
        rsrp = (n % 21) ⊖ 115;
        rsrq = (n % 5) ⊖ 16;
        rssi = (n % 11) ⊖ 85;
        rssnr = (n % 7 + 1) ⊖ 3;
        earfcn = pos 1850;
        last_seen = 0;
      })
unfolding second_line
parse_second n =
    parse_neighbour_line _ _ _ _ _ (omega arith) (difference (n % 5) 16 (omega arith) (omega arith))
      (difference (n % 21) 115 (omega arith) (omega arith))
      (difference (n % 11) 85 (omega arith) (omega arith))
      (difference (n % 7 + 1) 3 (omega arith) (omega arith))

-- The fake modem's answer to the query of the neighbour cells leaves, where none were known and its
-- serving cell is in the context, its two cells with the values of the counter's bands, seen now.
pub fake_command-observe :
    (timeout_ms counter now : ℕ)
    → (text : Text) × (fake_command neighbor_command timeout_ms counter
        ≡ (ok text, next_counter counter))
      × (observe (pos 250) now (lines text) [] ≡ fake_neighbors now (next_counter counter))
unfolding fake_command trim trim_start is_whitespace strip_prefix observe insert_cell
fake_command-observe timeout_ms counter now =
    let n = next_counter counter in
    (
      synth_neighbourcell n,
      refl,
      rw (neighbor_lines n, parse_first n, parse_second n, parse_ok) refl,
    )
