-- ===== src/Mavlink/Outgoing.antt =====
-- The queue of outgoing frames: `tx_outgoing` of context.rs, filled by `try_send`, and its draining by
-- `DroneComponent` of mavlink/drone_component.rs. `F` is the type of frames.
pub mod Order
pub mod Reconnect
mod Tests
use uswarm_unitctl.Base.{ℕ, Bool, true, false, not, List, [], ◌∷◌, ◌++◌, length, ltb, if◌then◌else◌}

abbrev pub outgoing_capacity : ℕ
outgoing_capacity = 500

-- `wire` are the frames that the connection took, all connections together, `discarded` those that
-- were taken from the queue and not sent.
pub record Outgoing (F : Type 0) : Type 0 where
  pub queue : List F
  pub wire : List F
  pub discarded : List F

-- A `try_send` of a task, an `interval.tick` of the send loop with the answer of the connection to
-- each frame, and a new connection.
pub data Event (F : Type 0) : Type 0 where
  try_send : F → Event F
  tick : (F → Bool) → Event F
  reconnect : Event F

module _ {F : Type 0} where
  -- The `try_send` of tokio's bounded channel while it is open, as its documentation has it: a frame
  -- is put last if fewer than the capacity wait, and the answer is whether there was room.
  unfoldable pub enqueue : F → Outgoing F → Outgoing F × Bool
  enqueue frame s =
      if ltb (length s.queue) outgoing_capacity
      then (record s { queue = s.queue ++ frame ∷ [] }, true)
      else (s, false)

  -- `DroneComponent::drain_queue`
  unfoldable pub drain_queue : Outgoing F → List F × Outgoing F
  drain_queue s = (s.queue, record s { queue = [] })

  -- The loop over the drained frames: it is left at the first that the connection refuses.
  unfoldable pub send_all : (F → Bool) → List F → Outgoing F → Outgoing F
  send_all takes [] s = s
  send_all takes (frame ∷ frames) s =
      let rest = send_all takes frames (record s { wire = s.wire ++ frame ∷ [] }) in
      if takes frame then rest else record s { discarded = s.discarded ++ frame ∷ frames }

  -- A round of `DroneComponent::send_loop`.
  unfoldable pub send_round : (F → Bool) → Outgoing F → Outgoing F
  unfolding drain_queue send_all
  send_round takes s = let (messages, s') = drain_queue s in send_all takes messages s'

  -- `DroneComponent::connect`, where a connection is made: what waits is stale.
  unfoldable pub discard_stale : Outgoing F → Outgoing F
  unfolding drain_queue
  discard_stale s =
      let (stale, s') = drain_queue s in record s' { discarded = s'.discarded ++ stale }

  unfoldable pub step : Event F → Outgoing F → Outgoing F
  unfolding enqueue send_round discard_stale
  step (try_send frame) s = (enqueue frame s).0
  step (tick takes) s = send_round takes s
  step reconnect s = discard_stale s

  unfoldable pub steps : List (Event F) → Outgoing F → Outgoing F
  unfolding step
  steps [] s = s
  steps (e ∷ es) s = steps es (step e s)
