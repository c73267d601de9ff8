-- ===== src/Mqtt/Dedup.antt =====
-- `DedupQueue` of services/mqtt/commands.rs.
pub mod Window
mod Tests
use uswarm_unitctl.Base.{
  ℕ, Bool, true, false, List, [], ◌∷◌, ◌++◌, Text, length, leb, if◌then◌else◌, has, insert, remove,
}

abbrev pub dedup_capacity : ℕ
dedup_capacity = 256

-- `seen` is the hash set, `order` the queue with its front first.
pub record DedupQueue : Type 0 where
  pub seen : List Text
  pub order : List Text

unfoldable pub with_capacity : DedupQueue
with_capacity = record { seen = []; order = [] }

-- `if let Some(old) = order.pop_front() { seen.remove(&old); }`
unfoldable pub pop_oldest : DedupQueue → List Text → DedupQueue
pop_oldest q [] = q
pop_oldest q (old ∷ order) = record { seen = remove q.seen old; order = order }

-- `DedupQueue::record`
unfoldable pub record_uuid : DedupQueue → Text → DedupQueue × Bool
unfolding pop_oldest
record_uuid q uuid =
    if has q.seen uuid
    then (q, false)
    else let p = if leb dedup_capacity (length q.seen) then pop_oldest q q.order else q in
      (record { seen = insert p.seen uuid; order = p.order ++ uuid ∷ [] }, true)

-- The queue after a row of messages, and the answers that it gave.
unfoldable pub record_all : DedupQueue → List Text → DedupQueue × List Bool
record_all q [] = (q, [])
record_all q (u ∷ us) =
    let (q', fresh) = record_uuid q u in
    let (q'', answers) = record_all q' us in (q'', fresh ∷ answers)
