-- ===== src/Mavlink/Reporter/Polled.antt =====
-- mavlink/telemetry_reporter.rs and sensors/lte.rs: the reporter's messages for the neighbour cells of
-- a reading of `poll_loop`.
mod Tests
use mathlib.Core.Path.{subst}
use mathlib.Core.List.{Permᴰ}
use uswarm_unitctl.Base.{
  ℕ, ◌≡◌, refl, sym, ap, ◌∙◌, Bool, true, false, not, ◌&&◌, Bool-cases, inl, inr, Option, none,
  some, List, [], ◌∷◌, take, Text, all, arith, ℤ, int_eq, Result, ok, err,
}
use uswarm_unitctl.Float.{F64}
use uswarm_unitctl.Messages.Telemetry.{LteNeighborCell, LteReading, cells}
use uswarm_unitctl.Modem.Types.{ModemType}
use uswarm_unitctl.Modem.Access.{ModemAccess, discover_modem}
use uswarm_unitctl.Sensors.Lte.Neighbors.{Neighbors}
use uswarm_unitctl.Sensors.Lte.Neighbors.Lookup.{HasDistinctKeys, lookup}
use uswarm_unitctl.Sensors.Lte.Neighbors.Ids.{HasIdKeys, IsNeighborMap}
use uswarm_unitctl.Sensors.Lte.Poll.{PollState, poll_loop, text_or_empty}
use uswarm_unitctl.Sensors.Lte.Polled.{IsPolled, ReadingAgrees, poll_loop-IsPolled}
use uswarm_unitctl.Mavlink.Reporter.{sort_by_pcid, neighbor_messages}
use uswarm_unitctl.Mavlink.Reporter.Order.{
  lacks, HasDistinctIds, int_eq_symmetric, neighbor_messages-Perm,
}

-- A key that finds nothing is the id of no cell.
lacks-lookup :
    (k : ℤ) (ns : Neighbors) → HasIdKeys ns → lookup k ns ≡ none → lacks k (cells ns) ≡ true
unfolding lookup
lacks-lookup k [] ids h = refl
lacks-lookup k ((key, cell) ∷ rest) ids h = elim (Bool-cases (int_eq key k)) [
  | inl same ↦ ground arith
  | inr other ↦
      rw (int_eq_symmetric k cell.pcid, sym ids.0, other) (lacks-lookup k rest ids.1 (ground arith))
]

IsNeighborMap-HasDistinctIds : (ns : Neighbors) → IsNeighborMap ns → HasDistinctIds (cells ns)
IsNeighborMap-HasDistinctIds [] h = tt
IsNeighborMap-HasDistinctIds ((key, cell) ∷ rest) h = (
  lacks-lookup cell.pcid rest h.1.1 (ap (λ k. lookup k rest) (sym h.1.0) ∙ h.0.0),
  IsNeighborMap-HasDistinctIds rest (h.0.1, h.1.1),
)

IsPolled-HasDistinctIds :
    {S : Type 0}
    → (imsi : Text) (s : PollState S) (r : LteReading) → s.reading ≡ some r
    → IsPolled imsi s
    → HasDistinctIds (cells r.neighbors)
IsPolled-HasDistinctIds imsi s r stored h =
    let agrees : ReadingAgrees imsi s.neighbors (some r) =
      subst (ReadingAgrees imsi s.neighbors) stored h.1 in
    subst (λ ns. HasDistinctIds (cells ns)) (sym agrees.1)
      (IsNeighborMap-HasDistinctIds s.neighbors h.0)

-- After the discovery of a modem and at any time of `poll_loop`, whatever the modem answers, the
-- reporter's messages for the neighbour cells of the reading in the context are the same in whatever
-- order the map of the cells is iterated.
pub neighbor_messages-poll_loop :
    {S : Type 0}
    → (access : ModemAccess S) (expiry_s : F64) (nows : List ℕ) (modem modem' : S) (t : ModemType)
      (r : LteReading) (sysid compid : ℕ) (ys : List LteNeighborCell)
    → discover_modem access modem ≡ (ok t, modem')
    → (poll_loop access expiry_s nows modem).reading ≡ some r
    → Permᴰ (cells r.neighbors) ys
    → neighbor_messages sysid compid 0 (take 10 (sort_by_pcid (cells r.neighbors)))
      ≡ neighbor_messages sysid compid 0 (take 10 (sort_by_pcid ys))
neighbor_messages-poll_loop access expiry_s nows modem modem' t r sysid compid ys found stored p =
    neighbor_messages-Perm sysid compid (cells r.neighbors) ys p (
      IsPolled-HasDistinctIds (text_or_empty (access.imsi modem').0)
        (poll_loop access expiry_s nows modem) r stored
        (poll_loop-IsPolled access expiry_s nows modem modem' t found))
