-- ===== src/Mavlink/Outgoing/Order.antt =====
-- The frames leave in the order in which they came.
use mathlib.Core.Path.{subst, ap₂}
use uswarm_unitctl.Base.{
  ◌<◌, ◌⊎◌, ◌≡◌, refl, sym, ap, ◌∙◌, inl, inr, Bool, true, false, List, [], ◌∷◌, ◌++◌, append_assoc,
  append-nil, length, ltb, ltb-true, if◌then◌else◌, Bool-cases,
}
use uswarm_unitctl.Mavlink.Outgoing.{
  Outgoing, Event, try_send, tick, reconnect, outgoing_capacity, enqueue, drain_queue, send_all,
  send_round, step, steps,
}

module _ {F : Type 0} where
  send_all-queue :
      (takes : F → Bool) (frames : List F) (s : Outgoing F)
      → (send_all takes frames s).queue ≡ s.queue
  unfolding send_all
  send_all-queue takes [] s = refl
  send_all-queue takes (f ∷ frames) s = elim (Bool-cases (takes f)) [
    | inl taken ↦ rw taken (send_all-queue takes frames (record s { wire = s.wire ++ f ∷ [] }))
    | inr refused ↦ rw refused
  ]

  enqueue-cases :
      (f : F) (s : Outgoing F)
      → ((length s.queue < outgoing_capacity)
          × (enqueue f s ≡ (record s { queue = s.queue ++ f ∷ [] }, true)))
        ⊎ (enqueue f s ≡ (s, false))
  unfolding enqueue
  enqueue-cases f s = elim (Bool-cases (ltb (length s.queue) outgoing_capacity)) [
    | inl room ↦ inl (ltb-true _ _ room, rw room refl)
    | inr full ↦ inr (rw full refl)
  ]

  -- The connection takes every frame, and there is no new one.
  abbrev pub IsUndisturbed : List (Event F) → Type 0
  IsUndisturbed [] = Unit
  IsUndisturbed (try_send f ∷ es) = IsUndisturbed es
  IsUndisturbed (tick takes ∷ es) = ((f : F) → takes f ≡ true) × IsUndisturbed es
  IsUndisturbed (reconnect ∷ es) = ⊥

  -- The frames for which `try_send` found room.
  unfoldable pub taken_frames : List (Event F) → Outgoing F → List F
  taken_frames [] s = []
  taken_frames (try_send f ∷ es) s =
      if (enqueue f s).1
      then f ∷ taken_frames es (step (try_send f) s)
      else taken_frames es (step (try_send f) s)
  taken_frames (e ∷ es) s = taken_frames es (step e s)

  send_all-wire :
      (takes : F → Bool) (frames : List F) (s : Outgoing F)
      → ((f : F) → takes f ≡ true)
      → (send_all takes frames s).wire ≡ s.wire ++ frames
  unfolding send_all
  send_all-wire takes [] s all_taken = sym (append-nil s.wire)
  send_all-wire takes (f ∷ frames) s all_taken = rw (all_taken f) (
      send_all-wire takes frames (record s { wire = s.wire ++ f ∷ [] }) all_taken
      ∙ append_assoc s.wire (f ∷ []) frames)

  -- What is claimed of the rest of the events after a `try_send` with this outcome.
  abbrev Continues : F → List (Event F) → Outgoing F → Outgoing F × Bool → Type 0
  Continues f es s p =
      (steps es p.0).wire ++ (steps es p.0).queue
      ≡ (s.wire ++ s.queue) ++ (if p.1 then f ∷ taken_frames es p.0 else taken_frames es p.0)

  -- On one connection that takes every frame, the frames for which there was room are on the wire or
  -- still wait, in the order in which they came and each once.
  pub steps_order :
      (es : List (Event F)) (s : Outgoing F)
      → IsUndisturbed es
      → (steps es s).wire ++ (steps es s).queue ≡ (s.wire ++ s.queue) ++ taken_frames es s
  unfolding steps taken_frames step send_round drain_queue
  steps_order [] s h = sym (append-nil _)
  steps_order (try_send f ∷ es) s h = elim (enqueue-cases f s) [
    | inl (room, e) ↦
        let s1 : Outgoing F = record s { queue = s.queue ++ f ∷ [] } in
        subst (Continues f es s) (sym e) (
          steps_order es s1 h
          ∙ ap (λ l. l ++ taken_frames es s1) (sym (append_assoc s.wire s.queue (f ∷ [])))
          ∙ append_assoc (s.wire ++ s.queue) (f ∷ []) (taken_frames es s1))
    | inr e ↦ subst (Continues f es s) (sym e) (steps_order es s h)
  ]
  steps_order (tick takes ∷ es) s h =
      let s0 : Outgoing F = record s { queue = [] } in
      steps_order es (send_all takes s.queue s0) h.1
      ∙ ap (λ l. l ++ taken_frames es (send_all takes s.queue s0))
          (ap₂ (λ l r. l ++ r) (send_all-wire takes s.queue s0 h.0)
              (send_all-queue takes s.queue s0)
            ∙ append-nil (s.wire ++ s.queue))
  steps_order (reconnect ∷ es) s h = absurd h
