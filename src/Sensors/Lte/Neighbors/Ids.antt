-- ===== src/Sensors/Lte/Neighbors/Ids.antt =====
-- sensors/lte.rs: the key of a cell in the map is its id.
use uswarm_unitctl.Base.{
  ℕ, ◌≡◌, refl, Bool-cases, inl, inr, Option, none, some, List, [], ◌∷◌, Text, ℤ, int_eq,
}
use uswarm_unitctl.Float.{F64}
use uswarm_unitctl.Messages.Telemetry.{LteNeighborCell}
use uswarm_unitctl.Sensors.Lte.Parse.{parse_quectel_neighbor}
use uswarm_unitctl.Sensors.Lte.Neighbors.{
  Neighbors, insert_cell, seen_at, observe_cell, observe, is_fresh, expire_neighbors,
}
use uswarm_unitctl.Sensors.Lte.Neighbors.Lookup.{HasDistinctKeys, int_eq_sound}

-- Every cell stands under its id.
abbrev pub HasIdKeys : Neighbors → Type 0
HasIdKeys [] = Unit
HasIdKeys ((key, cell) ∷ rest) = (key ≡ cell.pcid) × HasIdKeys rest

HasIdKeys-insert_cell :
    (cell : LteNeighborCell) (ns : Neighbors) → HasIdKeys ns → HasIdKeys (insert_cell cell ns)
unfolding insert_cell
HasIdKeys-insert_cell cell [] h = (refl, tt)
HasIdKeys-insert_cell cell ((key, old) ∷ rest) h = elim (Bool-cases (int_eq key cell.pcid)) [
  | inl same ↦ rw same (int_eq_sound key cell.pcid same, h.1)
  | inr other ↦ rw other (h.0, HasIdKeys-insert_cell cell rest h.1)
]

HasIdKeys-observe_cell :
    (serving : ℤ) (now : ℕ) (o : Option LteNeighborCell) (ns : Neighbors)
    → HasIdKeys ns
    → HasIdKeys (observe_cell serving now o ns)
HasIdKeys-observe_cell serving now none ns h = h
HasIdKeys-observe_cell serving now (some cell) ns h = elim (Bool-cases (int_eq cell.pcid serving)) [
  | inl e ↦ rw e h
  | inr e ↦ rw e (HasIdKeys-insert_cell (seen_at now cell) ns h)
]

pub HasIdKeys-observe :
    (serving : ℤ) (now : ℕ) (ls : List Text) (ns : Neighbors)
    → HasIdKeys ns
    → HasIdKeys (observe serving now ls ns)
unfolding observe
HasIdKeys-observe serving now [] ns h = h
HasIdKeys-observe serving now (line ∷ rest) ns h =
    HasIdKeys-observe serving now rest _
      (HasIdKeys-observe_cell serving now (parse_quectel_neighbor line) ns h)

pub HasIdKeys-expire_neighbors :
    (expiry_s : F64) (now : ℕ) (ns : Neighbors)
    → HasIdKeys ns
    → HasIdKeys (expire_neighbors expiry_s now ns)
unfolding expire_neighbors
HasIdKeys-expire_neighbors expiry_s now [] h = tt
HasIdKeys-expire_neighbors expiry_s now ((key, cell) ∷ rest) h =
    elim (Bool-cases (is_fresh expiry_s now cell)) [
      | inl e ↦ rw e (h.0, HasIdKeys-expire_neighbors expiry_s now rest h.1)
      | inr e ↦ rw e (HasIdKeys-expire_neighbors expiry_s now rest h.1)
    ]

-- A map of neighbours: no key twice, and each the id of its cell.
abbrev pub IsNeighborMap : Neighbors → Type 0
IsNeighborMap ns = HasDistinctKeys ns × HasIdKeys ns
