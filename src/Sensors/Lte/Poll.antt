-- ===== src/Sensors/Lte/Poll.antt =====
-- sensors/lte.rs: `LteSensor::poll_loop`, over the ticks of its timer until the cancellation. `S` is
-- the state of the modem.
use uswarm_unitctl.Base.{
  ℕ, ◌+◌, ◌%◌, ◌^◌, Bool, not, ◌&&◌, Option, none, some, List, [], ◌∷◌, ◌++◌, Text, codes, ◌==◌,
  if◌then◌else◌, ℤ, negsuc, lines, Result, ok, err,
}
use uswarm_unitctl.Float.{F64}
use uswarm_unitctl.Handlers.Modem.{ModemError}
use uswarm_unitctl.Messages.Telemetry.{LteSignalQuality, LteReading}
use uswarm_unitctl.Modem.Types.{ModemType}
use uswarm_unitctl.Modem.Access.{ModemAccess, Answer, discover_modem, send_at_command}
use uswarm_unitctl.Sensors.Lte.Parse.{
  parse_serving_cell, serving_cell_command, supports_neighbor_query,
}
use uswarm_unitctl.Sensors.Lte.Neighbors.{Neighbors, observe, expire_neighbors}

-- The variables of the loop, with the reading in the context, which only this sensor writes, and the
-- commands that the loop has sent.
pub record PollState (S : Type 0) : Type 0 where
  pub at_counter : ℕ
  pub neighbors : Neighbors
  pub reading : Option LteReading
  pub modem : S
  pub sent : List Text

abbrev pub neighbor_command : Text
neighbor_command = codes "AT+QENG=\"neighbourcell\""

-- The id of the serving cell as the context has it.
abbrev pub serving_pcid : Option LteReading → ℤ
serving_pcid none = negsuc 0
serving_pcid (some r) = r.signal.pcid

-- `if let Some(ref mut reading) = .. { reading.neighbors = neighbors.clone() }`
abbrev pub with_neighbors : Neighbors → Option LteReading → Option LteReading
with_neighbors neighbors none = none
with_neighbors neighbors (some r) = some (record r { neighbors = neighbors })

abbrev pub text_or_empty : Result Text ModemError → Text
text_or_empty (ok imsi) = imsi
text_or_empty (err e) = []

-- `has_neighbors && !at_counter.is_multiple_of(2)`
abbrev pub is_neighbor_query : ModemType → ℕ → Bool
is_neighbor_query t at_counter = supports_neighbor_query t && not ((at_counter % 2) == 0)

module _ {S : Type 0} where
  -- The two queries, on the response. An error changes nothing.
  unfoldable pub after_neighbor_query : F64 → ℕ → Result Text ModemError → PollState S → PollState S
  unfolding observe expire_neighbors
  after_neighbor_query expiry_s now (err e) s = s
  after_neighbor_query expiry_s now (ok resp) s =
      let seen = observe (serving_pcid s.reading) now (lines resp) s.neighbors in
      let neighbors' = expire_neighbors expiry_s now seen in
      record s { neighbors = neighbors'; reading = with_neighbors neighbors' s.reading }

  abbrev pub store_signal : Text → Option LteSignalQuality → PollState S → PollState S
  store_signal imsi none s = s
  store_signal imsi (some signal) s = record s {
    reading = some (record { imsi = imsi; signal = signal; neighbors = s.neighbors });
  }

  unfoldable pub after_serving_query :
      ModemType → Text → Result Text ModemError → PollState S → PollState S
  unfolding parse_serving_cell
  after_serving_query t imsi (err e) s = s
  after_serving_query t imsi (ok resp) s = store_signal imsi (parse_serving_cell t resp) s

  abbrev after_command :
      (Result Text ModemError → PollState S → PollState S)
      → Text
      → Answer Text S
      → PollState S
      → PollState S
  after_command handle cmd (resp, modem') s =
      handle resp (record s { modem = modem'; sent = s.sent ++ cmd ∷ [] })

  -- A round of the loop, at the time `now`.
  unfoldable pub poll_tick : ModemAccess S → ModemType → Text → F64 → ℕ → PollState S → PollState S
  unfolding after_neighbor_query after_serving_query send_at_command serving_cell_command
      supports_neighbor_query
  poll_tick access t imsi expiry_s now s =
      let at_counter' = (s.at_counter + 1) % 2 ^ 64 in
      let s' = record s { at_counter = at_counter' } in
      let serving = serving_cell_command t in
      if is_neighbor_query t at_counter'
      then after_command (after_neighbor_query expiry_s now) neighbor_command
          (send_at_command access neighbor_command 3000 s.modem) s'
      else after_command (after_serving_query t imsi) serving
          (send_at_command access serving 3000 s.modem) s'

  unfoldable pub poll_ticks :
      ModemAccess S → ModemType → Text → F64 → List ℕ → PollState S → PollState S
  unfolding poll_tick
  poll_ticks access t imsi expiry_s [] s = s
  poll_ticks access t imsi expiry_s (now ∷ nows) s =
      poll_ticks access t imsi expiry_s nows (poll_tick access t imsi expiry_s now s)

  abbrev pub fresh_state : S → PollState S
  fresh_state modem = record {
    at_counter = 1;
    neighbors = [];
    reading = none;
    modem = modem;
    sent = [];
  }

  abbrev after_discovery : ModemAccess S → F64 → List ℕ → Answer ModemType S → PollState S
  after_discovery access expiry_s nows (err e, modem) = fresh_state modem
  after_discovery access expiry_s nows (ok t, modem) =
      let (imsi, modem') = access.imsi modem in
      poll_ticks access t (text_or_empty imsi) expiry_s nows (fresh_state modem')

  -- `LteSensor::poll_loop`, from its start with no reading in the context, for the ticks at `nows`.
  unfoldable pub poll_loop : ModemAccess S → F64 → List ℕ → S → PollState S
  unfolding discover_modem poll_ticks
  poll_loop access expiry_s nows modem =
      after_discovery access expiry_s nows (discover_modem access modem)
