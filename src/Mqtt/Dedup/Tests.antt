-- ===== src/Mqtt/Dedup/Tests.antt =====
-- Three messages, of which the last repeats the first.
use uswarm_unitctl.Base.{
  ◌≡◌, ◌≤◌, true, false, List, [], ◌∷◌, Text, codes, length, AreDistinct, has, text_eq,
}
use uswarm_unitctl.Mqtt.Dedup.{with_capacity, record_all}
use uswarm_unitctl.Mqtt.Dedup.Window.{
  record_all_spec, record_all-refines, record_all-bounded, record_spec,
}

abbrev three_uuids : List Text
three_uuids = codes "a" ∷ codes "b" ∷ codes "a" ∷ []

record_all-refines_example : (record_all with_capacity three_uuids).1 ≡ true ∷ true ∷ false ∷ []
unfolding record_all_spec record_spec has text_eq
record_all-refines_example = record_all-refines three_uuids

record_all-bounded_example :
    let q = (record_all with_capacity three_uuids).0 in
    (length q.seen ≤ 256) × (length q.order ≤ 256) × (q.seen ≡ q.order) × AreDistinct q.order
record_all-bounded_example = record_all-bounded three_uuids
