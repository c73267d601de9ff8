-- ===== src/Sensors/Lte/Polled.antt =====
-- sensors/lte.rs: the commands that the polling loop sends, and what it leaves in the context.
use uswarm_unitctl.Base.{
  ℕ, ◌+◌, ◌%◌, ◌^◌, ◌≡◌, refl, sym, ap, ◌∙◌, Bool, true, false, not, ◌&&◌, Option, none, some, List,
  [], ◌∷◌, ◌++◌, append_assoc, append-nil, Text, ◌==◌, if◌then◌else◌, Bool-cases, inl, inr, lines,
  Result, ok, err, arith,
}
use uswarm_unitctl.Float.{F64}
use uswarm_unitctl.Handlers.Modem.{ModemError}
use uswarm_unitctl.Messages.Telemetry.{LteSignalQuality, LteReading}
use uswarm_unitctl.Modem.Types.{ModemType}
use uswarm_unitctl.Modem.Access.{ModemAccess, discover_modem}
use uswarm_unitctl.Sensors.Lte.Parse.{
  parse_serving_cell, serving_cell_command, supports_neighbor_query,
}
use uswarm_unitctl.Sensors.Lte.Neighbors.{Neighbors}
use uswarm_unitctl.Sensors.Lte.Neighbors.Lookup.{
  HasDistinctKeys-observe, HasDistinctKeys-expire_neighbors,
}
use uswarm_unitctl.Sensors.Lte.Neighbors.Ids.{
  IsNeighborMap, HasIdKeys-observe, HasIdKeys-expire_neighbors,
}
use uswarm_unitctl.Sensors.Lte.Poll.{
  PollState, after_neighbor_query, after_serving_query, store_signal, poll_tick, poll_ticks,
  poll_loop, fresh_state, is_neighbor_query, neighbor_command, text_or_empty, serving_pcid,
  with_neighbors,
}

-- The commands of a loop that goes on with a query of the serving cell, or of the neighbours.
abbrev pub alternating : ModemType → Bool → List ℕ → List Text
alternating t neighbor_next [] = []
alternating t neighbor_next (now ∷ nows) =
    (if supports_neighbor_query t && neighbor_next
      then neighbor_command
      else serving_cell_command t)
    ∷ alternating t (not neighbor_next) nows

next_parity : (c : ℕ) → ((((c + 1) % 2 ^ 64) % 2) == 0) ≡ not ((c % 2) == 0)
next_parity c = ground arith

not-not : (b : Bool) → not (not b) ≡ b
not-not true = refl
not-not false = refl

module _ {S : Type 0} where
  -- Two states that agree in the counter and the commands.
  abbrev HasSent : ℕ → List Text → PollState S → Type 0
  HasSent counter sent s = (s.at_counter ≡ counter) × (s.sent ≡ sent)

  after_neighbor_query-HasSent :
      (expiry_s : F64) (now : ℕ) (r : Result Text ModemError) (s : PollState S)
      → HasSent s.at_counter s.sent (after_neighbor_query expiry_s now r s)
  unfolding after_neighbor_query
  after_neighbor_query-HasSent expiry_s now (err e) s = (refl, refl)
  after_neighbor_query-HasSent expiry_s now (ok resp) s = (refl, refl)

  store_signal-HasSent :
      (imsi : Text) (o : Option LteSignalQuality) (s : PollState S)
      → HasSent s.at_counter s.sent (store_signal imsi o s)
  store_signal-HasSent imsi none s = (refl, refl)
  store_signal-HasSent imsi (some signal) s = (refl, refl)

  after_serving_query-HasSent :
      (t : ModemType) (imsi : Text) (r : Result Text ModemError) (s : PollState S)
      → HasSent s.at_counter s.sent (after_serving_query t imsi r s)
  unfolding after_serving_query
  after_serving_query-HasSent t imsi (err e) s = (refl, refl)
  after_serving_query-HasSent t imsi (ok resp) s =
      store_signal-HasSent imsi (parse_serving_cell t resp) s

  module _ (access : ModemAccess S) (t : ModemType) (imsi : Text) (expiry_s : F64) where
    poll_tick-HasSent :
        (now : ℕ) (s : PollState S)
        → HasSent
            ((s.at_counter + 1) % 2 ^ 64)
            (s.sent
              ++ (if is_neighbor_query t ((s.at_counter + 1) % 2 ^ 64)
                  then neighbor_command
                  else serving_cell_command t)
                ∷ [])
            (poll_tick access t imsi expiry_s now s)
    unfolding poll_tick
    poll_tick-HasSent now s =
        elim (Bool-cases (is_neighbor_query t ((s.at_counter + 1) % 2 ^ 64))) [
          | inl e ↦ rw (poll_tick, e) (after_neighbor_query-HasSent expiry_s now _ _)
          | inr e ↦ rw (poll_tick, e) (after_serving_query-HasSent t imsi _ _)
        ]

    -- The counter is odd when the serving cell is next.
    poll_ticks-alternating :
        (nows : List ℕ) (s : PollState S) (neighbor_next : Bool)
        → ((s.at_counter % 2) == 0) ≡ neighbor_next
        → (poll_ticks access t imsi expiry_s nows s).sent
          ≡ s.sent ++ alternating t neighbor_next nows
    unfolding poll_ticks
    poll_ticks-alternating [] s neighbor_next h = sym (append-nil s.sent)
    poll_ticks-alternating (now ∷ nows) s neighbor_next h =
        let (counter, sent) = poll_tick-HasSent now s in
        let parity : (((s.at_counter + 1) % 2 ^ 64) % 2 == 0) ≡ not neighbor_next =
          next_parity s.at_counter ∙ ap not h in
        let turn : is_neighbor_query t ((s.at_counter + 1) % 2 ^ 64)
            ≡ (supports_neighbor_query t && neighbor_next) =
          ap (λ b. supports_neighbor_query t && not b) parity
          ∙ ap (λ b. supports_neighbor_query t && b) (not-not neighbor_next) in
        poll_ticks-alternating nows (poll_tick access t imsi expiry_s now s) (not neighbor_next)
          (ap (λ c. (c % 2) == 0) counter ∙ parity)
        ∙ ap (λ ws. ws ++ alternating t (not neighbor_next) nows) sent
        ∙ append_assoc s.sent _ _
        ∙ ap
            (λ b.
              s.sent
              ++ (if b then neighbor_command else serving_cell_command t)
                ∷ alternating t (not neighbor_next) nows)
            turn

-- The reading has the id that was read at the start, and the neighbours that the loop has.
abbrev pub ReadingAgrees : Text → Neighbors → Option LteReading → Type 0
ReadingAgrees imsi neighbors none = Unit
ReadingAgrees imsi neighbors (some r) = (r.imsi ≡ imsi) × (r.neighbors ≡ neighbors)

abbrev pub IsPolled : {S : Type 0} → Text → PollState S → Type 0
IsPolled imsi s = IsNeighborMap s.neighbors × ReadingAgrees imsi s.neighbors s.reading

with_neighbors-ReadingAgrees :
    (imsi : Text) (old new : Neighbors) (reading : Option LteReading)
    → ReadingAgrees imsi old reading
    → ReadingAgrees imsi new (with_neighbors new reading)
with_neighbors-ReadingAgrees imsi old new none h = tt
with_neighbors-ReadingAgrees imsi old new (some r) h = (h.0, refl)

module _ {S : Type 0} where
  after_neighbor_query-IsPolled :
      (imsi : Text) (expiry_s : F64) (now : ℕ) (r : Result Text ModemError) (s : PollState S)
      → IsPolled imsi s
      → IsPolled imsi (after_neighbor_query expiry_s now r s)
  unfolding after_neighbor_query
  after_neighbor_query-IsPolled imsi expiry_s now (err e) s h = h
  after_neighbor_query-IsPolled imsi expiry_s now (ok resp) s h = (
    (
      HasDistinctKeys-expire_neighbors expiry_s now _
          (HasDistinctKeys-observe (serving_pcid s.reading) now (lines resp) s.neighbors h.0.0),
      HasIdKeys-expire_neighbors expiry_s now _
          (HasIdKeys-observe (serving_pcid s.reading) now (lines resp) s.neighbors h.0.1),
    ),
    with_neighbors-ReadingAgrees imsi s.neighbors _ s.reading h.1,
  )

  store_signal-IsPolled :
      (imsi : Text) (o : Option LteSignalQuality) (s : PollState S)
      → IsPolled imsi s
      → IsPolled imsi (store_signal imsi o s)
  store_signal-IsPolled imsi none s h = h
  store_signal-IsPolled imsi (some signal) s h = (h.0, (refl, refl))

  after_serving_query-IsPolled :
      (t : ModemType) (imsi : Text) (r : Result Text ModemError) (s : PollState S)
      → IsPolled imsi s
      → IsPolled imsi (after_serving_query t imsi r s)
  unfolding after_serving_query
  after_serving_query-IsPolled t imsi (err e) s h = h
  after_serving_query-IsPolled t imsi (ok resp) s h =
      store_signal-IsPolled imsi (parse_serving_cell t resp) s h

  module _ (access : ModemAccess S) (t : ModemType) (imsi : Text) (expiry_s : F64) where
    poll_tick-IsPolled :
        (now : ℕ) (s : PollState S)
        → IsPolled imsi s
        → IsPolled imsi (poll_tick access t imsi expiry_s now s)
    unfolding poll_tick
    poll_tick-IsPolled now s h =
        elim (Bool-cases (is_neighbor_query t ((s.at_counter + 1) % 2 ^ 64))) [
          | inl e ↦ rw (poll_tick, e) (after_neighbor_query-IsPolled imsi expiry_s now _ _ h)
          | inr e ↦ rw (poll_tick, e) (after_serving_query-IsPolled t imsi _ _ h)
        ]

    poll_ticks-IsPolled :
        (nows : List ℕ) (s : PollState S)
        → IsPolled imsi s
        → IsPolled imsi (poll_ticks access t imsi expiry_s nows s)
    unfolding poll_ticks
    poll_ticks-IsPolled [] s h = h
    poll_ticks-IsPolled (now ∷ nows) s h =
        poll_ticks-IsPolled nows (poll_tick access t imsi expiry_s now s)
          (poll_tick-IsPolled now s h)

  -- After the discovery of a modem of type `t`, the commands of `poll_loop` are one a tick, first the
  -- query of the serving cell; for the EM12 it alternates with that of the neighbours, whatever the
  -- modem answers, and for the other types it is the only one.
  pub poll_loop-alternating :
      (access : ModemAccess S) (expiry_s : F64) (nows : List ℕ) (modem modem' : S) (t : ModemType)
      → discover_modem access modem ≡ (ok t, modem')
      → (poll_loop access expiry_s nows modem).sent ≡ alternating t false nows
  unfolding poll_loop
  poll_loop-alternating access expiry_s nows modem modem' t found =
      rw (poll_loop, found)
        (poll_ticks-alternating access t (text_or_empty (access.imsi modem').0) expiry_s nows
          (fresh_state (access.imsi modem').1) false refl)

  -- After the discovery of a modem of type `t` and at any time of `poll_loop`, whatever the modem
  -- answers, every neighbour cell stands in the map under its id and no id twice, and a reading in the
  -- context has the IMSI of the start and the neighbour cells of the loop.
  pub poll_loop-IsPolled :
      (access : ModemAccess S) (expiry_s : F64) (nows : List ℕ) (modem modem' : S) (t : ModemType)
      → discover_modem access modem ≡ (ok t, modem')
      → IsPolled (text_or_empty (access.imsi modem').0) (poll_loop access expiry_s nows modem)
  unfolding poll_loop
  poll_loop-IsPolled access expiry_s nows modem modem' t found =
      rw (poll_loop, found)
        (poll_ticks-IsPolled access t (text_or_empty (access.imsi modem').0) expiry_s nows
          (fresh_state (access.imsi modem').1) ((tt, tt), tt))
