-- ===== src/Modem/Fake.antt =====
-- services/modem_access/fake.rs: `FakeModemAccess`. Its state is its counter, an unsigned number of 64
-- bits that wraps around.
use uswarm_unitctl.Base.{
  ℕ, ◌+◌, ◌%◌, ◌^◌, Text, codes, ◌++◌, ◌∷◌, trim, starts_with, if◌then◌else◌, ℤ, pos, negsuc, ◌+ℤ◌,
  show_int, ok,
}
use uswarm_unitctl.Modem.Access.{ModemAccess, Answer, default_registration_status}

abbrev pub fake_imsi : Text
fake_imsi = codes "001010123456789"

-- `fetch_add(1) + 1`: the new counter, which is also the value used.
unfoldable pub next_counter : ℕ → ℕ
next_counter counter = (counter + 1) % 2 ^ 64

-- `middle + ((n % steps) as i32 - half)`
abbrev pub drift : ℤ → ℕ → ℕ → ℤ → ℤ
drift middle n steps half = middle +ℤ (pos (n % steps) +ℤ half)

abbrev pub crlf_ok : Text
crlf_ok = 13 ∷ 10 ∷ codes "OK"

-- The text of `format!` in `synth_servingcell`.
unfoldable pub serving_line : ℤ → ℤ → ℤ → ℤ → ℤ → ℤ → ℤ → Text
serving_line pcid earfcn rsrp rsrq rssi rssnr tx_power =
    codes "+QENG: \"servingcell\",\"NOCONN\",\"LTE\",\"FDD\",001,01,\"1A2B3C4D\","
    ++ (show_int pcid
        ++ (codes ","
            ++ (show_int earfcn
                ++ (codes ",3,5,5,\"1234\","
                    ++ (show_int rsrp
                        ++ (codes ","
                            ++ (show_int rsrq
                                ++ (codes ","
                                    ++ (show_int rssi
                                        ++ (codes ","
                                            ++ (show_int rssnr
                                                ++ (codes ",10,"
                                                    ++ (show_int tx_power
                                                        ++ (codes ",42" ++ crlf_ok))))))))))))))

-- `synth_servingcell`, for the value `n` of the counter.
unfoldable pub synth_servingcell : ℕ → Text
unfolding serving_line
synth_servingcell n =
    serving_line (pos 250) (pos 1850) (drift (negsuc 89) n 21 (negsuc 9))
      (drift (negsuc 9) n 7 (negsuc 2)) (drift (negsuc 64) n 11 (negsuc 4))
      (drift (pos 5) n 11 (negsuc 4)) (negsuc 9 +ℤ pos (n % 5))

-- One line of `synth_neighbourcell`.
unfoldable pub neighbour_line : ℤ → ℤ → ℤ → ℤ → ℤ → Text
neighbour_line pcid rsrq rsrp rssi rssnr =
    codes "+QENG: \"neighbourcell intra\",\"LTE\","
    ++ (show_int (pos 1850)
        ++ (codes ","
            ++ (show_int pcid
                ++ (codes ","
                    ++ (show_int rsrq
                        ++ (codes ","
                            ++ (show_int rsrp
                                ++ (codes ","
                                    ++ (show_int rssi
                                        ++ (codes ","
                                            ++ (show_int rssnr ++ codes ",5,8,-,-")))))))))))

-- `synth_neighbourcell`, for the value `n` of the counter.
unfoldable pub synth_neighbourcell : ℕ → Text
unfolding neighbour_line
synth_neighbourcell n =
    let first =
      neighbour_line (pos 100) (drift (negsuc 11) n 5 (negsuc 1))
        (drift (negsuc 99) n 21 (negsuc 9)) (drift (negsuc 74) n 11 (negsuc 4))
        (drift (pos 3) n 7 (negsuc 2)) in
    let second =
      neighbour_line (pos 200) (drift (negsuc 13) n 5 (negsuc 1))
        (drift (negsuc 104) n 21 (negsuc 9)) (drift (negsuc 79) n 11 (negsuc 4))
        (drift (pos 1) n 7 (negsuc 2)) in
    first ++ 13 ∷ 10 ∷ (second ++ crlf_ok)

-- `FakeModemAccess::command`; the counter goes on at the queries of cells only.
unfoldable pub fake_command : Text → ℕ → ℕ → Answer Text ℕ
unfolding next_counter synth_servingcell synth_neighbourcell
fake_command cmd timeout_ms counter =
    let cmd' = trim cmd in
    let n = next_counter counter in
    if starts_with cmd' (codes "AT+QENG=\"neighbourcell\"")
    then (ok (synth_neighbourcell n), n)
    else if starts_with cmd' (codes "AT+QENG=\"servingcell\"")
    then (ok (synth_servingcell n), n)
    else if starts_with cmd' (codes "AT+CIMI")
    then (ok (fake_imsi ++ crlf_ok), counter)
    else if starts_with cmd' (codes "AT+CEREG?")
    then (ok (codes "+CEREG: 0,1" ++ crlf_ok), counter)
    else if starts_with cmd' (codes "AT+CREG?")
    then (ok (codes "+CREG: 0,1" ++ crlf_ok), counter)
    else (ok (codes "OK"), counter)

-- `FakeModemAccess` as a `ModemAccess`: the registration is queried as the trait does it.
unfoldable pub fake_modem : ModemAccess ℕ
unfolding fake_command default_registration_status
fake_modem = record {
  model = λ counter. (ok (codes "EM12"), counter);
  command = fake_command;
  imsi = λ counter. (ok fake_imsi, counter);
  registration_status = default_registration_status fake_command;
}
