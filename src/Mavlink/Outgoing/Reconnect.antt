-- ===== src/Mavlink/Outgoing/Reconnect.antt =====
-- `DroneComponent::connect` of mavlink/drone_component.rs: what a new connection sends.

use uswarm_unitctl.Base.{
  ◌≡◌, refl, sym, ap, ◌∙◌, inl, inr, Bool, List, [], ◌∷◌, ◌++◌, append_assoc, append-nil, length,
  ltb, Bool-cases,
}
use uswarm_unitctl.Mavlink.Outgoing.{
  Outgoing, Event, try_send, tick, reconnect, outgoing_capacity, enqueue, drain_queue, send_all,
  send_round, discard_stale, step, steps,
}

-- Nothing waits, and nothing was sent or discarded.
abbrev pub fresh : {F : Type 0} → List F → Outgoing F
fresh queue = record { queue = queue; wire = []; discarded = [] }

module _ {F : Type 0} where
  -- The states have the same queue, and the first has `sent` before what the second has on the wire.
  abbrev Extends : List F → Outgoing F → Outgoing F → Type 0
  Extends sent s t = (s.queue ≡ t.queue) × (s.wire ≡ sent ++ t.wire)

  send_all-Extends :
      (takes : F → Bool) (frames : List F) (sent : List F) (s t : Outgoing F)
      → Extends sent s t
      → Extends sent (send_all takes frames s) (send_all takes frames t)
  unfolding send_all
  send_all-Extends takes [] sent s t h = h
  send_all-Extends takes (f ∷ frames) sent s t h = elim (Bool-cases (takes f)) [
    | inl taken ↦ rw taken (
        send_all-Extends takes frames sent _ _
          (h.0, ap (λ l. l ++ f ∷ []) h.1 ∙ append_assoc sent t.wire (f ∷ [])))
    | inr refused ↦ rw refused h
  ]

  step-Extends :
      (e : Event F) (sent : List F) (s t : Outgoing F)
      → Extends sent s t
      → Extends sent (step e s) (step e t)
  unfolding step enqueue send_round drain_queue discard_stale
  step-Extends (try_send f) sent s t h =
      let same : ltb (length s.queue) outgoing_capacity ≡ ltb (length t.queue) outgoing_capacity =
        ap (λ q. ltb (length q) outgoing_capacity) h.0 in
      elim (Bool-cases (ltb (length t.queue) outgoing_capacity)) [
        | inl room ↦ rw (step, enqueue, same, room) (ap (λ q. q ++ f ∷ []) h.0, h.1)
        | inr full ↦ rw (step, enqueue, same, full) h
      ]
  step-Extends (tick takes) sent s t h =
      rw h.0 (send_all-Extends takes t.queue sent _ _ (refl, h.1))
  step-Extends reconnect sent s t h = (refl, h.1)

  steps-Extends :
      (es : List (Event F)) (sent : List F) (s t : Outgoing F)
      → Extends sent s t
      → Extends sent (steps es s) (steps es t)
  unfolding steps
  steps-Extends [] sent s t h = h
  steps-Extends (e ∷ es) sent s t h = steps-Extends es sent _ _ (step-Extends e sent s t h)

  -- A new connection sends exactly what it would send with an empty queue: nothing that waited when it
  -- was made, and nothing that an earlier one refused, is ever sent, and what was sent before stays.
  pub steps-reconnect :
      (before after : List (Event F)) (s : Outgoing F)
      → (steps (before ++ reconnect ∷ after) s).wire
        ≡ (steps before s).wire ++ (steps after (fresh [])).wire
  unfolding steps step discard_stale drain_queue
  steps-reconnect [] after s = (steps-Extends after s.wire _ _ (refl, sym (append-nil s.wire))).1
  steps-reconnect (e ∷ before) after s = steps-reconnect before after (step e s)
