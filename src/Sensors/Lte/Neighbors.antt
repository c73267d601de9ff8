-- ===== src/Sensors/Lte/Neighbors.antt =====
-- sensors/lte.rs: the map of neighbour cells, as a list of keys with their cells.
pub mod Lookup
pub mod Ids
use uswarm_unitctl.Base.{
  ℕ, ◌-◌, Bool, true, false, Option, none, some, List, [], ◌∷◌, Text, ℤ, int_eq, if◌then◌else◌,
}
use uswarm_unitctl.Float.{F64, u64_as_f64, is_nat_le}
use uswarm_unitctl.Messages.Telemetry.{LteNeighborCell}
use uswarm_unitctl.Sensors.Lte.Parse.{parse_quectel_neighbor}

abbrev pub Neighbors : Type 0
Neighbors = List (ℤ × LteNeighborCell)

-- `neighbors.insert(cell.pcid, cell)`
unfoldable pub insert_cell : LteNeighborCell → Neighbors → Neighbors
insert_cell cell [] = (cell.pcid, cell) ∷ []
insert_cell cell ((key, old) ∷ rest) =
    let later = insert_cell cell rest in
    if int_eq key cell.pcid then (key, cell) ∷ rest else (key, old) ∷ later

-- `last_seen = now`
abbrev pub seen_at : ℕ → LteNeighborCell → LteNeighborCell
seen_at now cell = record cell { last_seen = now }

-- One line of the response: the serving cell is skipped.
abbrev pub observe_cell : ℤ → ℕ → Option LteNeighborCell → Neighbors → Neighbors
observe_cell serving now none neighbors = neighbors
observe_cell serving now (some cell) neighbors =
    if int_eq cell.pcid serving then neighbors else insert_cell (seen_at now cell) neighbors

-- The loop over the lines.
unfoldable pub observe : ℤ → ℕ → List Text → Neighbors → Neighbors
unfolding insert_cell parse_quectel_neighbor
observe serving now [] neighbors = neighbors
observe serving now (line ∷ rest) neighbors =
    observe serving now rest (observe_cell serving now (parse_quectel_neighbor line) neighbors)

-- `now.saturating_sub(cell.last_seen) as f64 <= expiry_s`
unfoldable pub is_fresh : F64 → ℕ → LteNeighborCell → Bool
is_fresh expiry_s now cell = is_nat_le (u64_as_f64 (now - cell.last_seen)) expiry_s

unfoldable pub expire_neighbors : F64 → ℕ → Neighbors → Neighbors
unfolding is_fresh
expire_neighbors expiry_s now [] = []
expire_neighbors expiry_s now ((key, cell) ∷ rest) =
    let later = expire_neighbors expiry_s now rest in
    if is_fresh expiry_s now cell then (key, cell) ∷ later else later
