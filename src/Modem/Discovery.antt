-- ===== src/Modem/Discovery.antt =====
-- services/modem_access/mod.rs: `ModemAccessService::discover_with_retry`, over the modems that D-Bus
-- lists. `M` is the type of these, and `model` the answer of one to the query of its model.
use uswarm_unitctl.Base.{
  ◌≡◌, refl, Option, none, some, List, [], ◌∷◌, ◌++◌, Text, codes, inl, inr, Result, ok, err,
  Result-cases, ap, ◌∙◌,
}
use uswarm_unitctl.Handlers.Modem.{ModemError, dbus, show_error}
use uswarm_unitctl.Modem.Access.{identified}

module _ {M : Type 0} where
  -- A round's modem, or the rounds after the pause.
  abbrev settled : Result M Text → Result M ModemError → Result M ModemError
  settled (ok modem) later = ok modem
  settled (err reason) later = later

  -- All modems that are listed in the rounds, in their order.
  abbrev pub candidates : List (Result (List M) ModemError) → List M
  candidates [] = []
  candidates (err e ∷ rounds) = candidates rounds
  candidates (ok modems ∷ rounds) = modems ++ candidates rounds

  abbrev pub found_or_cancelled : Option M → Result M ModemError
  found_or_cancelled none = err (dbus (codes "cancelled during discovery"))
  found_or_cancelled (some modem) = ok modem

module _ {M : Type 0} (model : M → Result Text ModemError) where
  -- The loop over the modems of a round: the first suitable one, or the last error as a text.
  unfoldable pub try_modems : Text → List M → Result M Text
  try_modems last_err [] = err last_err
  try_modems last_err (modem ∷ modems) = elim (identified (model modem)) [
    | ok t ↦ ok modem
    | err e ↦ try_modems (show_error e) modems
  ]

  -- One round, on the answer of `DbusModemAccess::discover_all`.
  unfoldable pub discovery_round : Result (List M) ModemError → Result M Text
  unfolding try_modems
  discovery_round (err e) = err (show_error e)
  discovery_round (ok modems) = try_modems (codes "no modems found") modems

  -- The rounds that take place, each but the first after a pause; the cancellation comes in the pause
  -- after the last.
  unfoldable pub discover_with_retry : List (Result (List M) ModemError) → Result M ModemError
  unfolding discovery_round
  discover_with_retry [] = err (dbus (codes "cancelled during discovery"))
  discover_with_retry (listed ∷ later) =
      let retried = discover_with_retry later in settled (discovery_round listed) retried

  -- The first whose model is identified.
  abbrev pub first_suitable : List M → Option M
  first_suitable [] = none
  first_suitable (modem ∷ modems) = elim (identified (model modem)) [
    | ok t ↦ some modem
    | err e ↦ first_suitable modems
  ]

  round-first_suitable :
      (last_err : Text) (modems rest : List M)
      → settled (try_modems last_err modems) (found_or_cancelled (first_suitable rest))
        ≡ found_or_cancelled (first_suitable (modems ++ rest))
  unfolding try_modems
  round-first_suitable last_err [] rest = refl
  round-first_suitable last_err (modem ∷ modems) rest =
      elim (Result-cases (identified (model modem))) [
        | inl (t, good) ↦ rw (first_suitable, try_modems, good) refl
        | inr (e, bad) ↦
            rw (first_suitable, try_modems, bad) (round-first_suitable (show_error e) modems rest)
      ]

  -- The search ends with the first modem of all rounds whose model is identified, whatever errors come
  -- before it, and with the error of the cancellation only if there is none in any round.
  pub discover_with_retry-first :
      (rounds : List (Result (List M) ModemError))
      → discover_with_retry rounds ≡ found_or_cancelled (first_suitable (candidates rounds))
  unfolding discover_with_retry discovery_round
  discover_with_retry-first [] = refl
  discover_with_retry-first (err e ∷ rounds) = discover_with_retry-first rounds
  discover_with_retry-first (ok modems ∷ rounds) =
      ap (settled (try_modems (codes "no modems found") modems)) (discover_with_retry-first rounds)
      ∙ round-first_suitable (codes "no modems found") modems (candidates rounds)
