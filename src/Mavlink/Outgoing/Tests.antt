-- ===== src/Mavlink/Outgoing/Tests.antt =====
-- Three frames, of which two are sent.
use uswarm_unitctl.Base.{ℕ, ◌==◌, ◌≡◌, refl, true, List, [], ◌∷◌, ◌++◌}
use uswarm_unitctl.Mavlink.Outgoing.{
  Outgoing, Event, try_send, tick, reconnect, steps, enqueue, step,
}
use uswarm_unitctl.Mavlink.Outgoing.Reconnect.{steps-reconnect}
use uswarm_unitctl.Mavlink.Outgoing.Order.{steps_order, taken_frames}

abbrev sample_events : List (Event ℕ)
sample_events = try_send 1 ∷ try_send 2 ∷ tick (λ f. true) ∷ try_send 3 ∷ []

abbrev empty_outgoing : Outgoing ℕ
empty_outgoing = record { queue = []; wire = []; discarded = [] }

two_sent : (steps sample_events empty_outgoing).wire ≡ 1 ∷ 2 ∷ []
unfolding steps
two_sent = refl

-- The frame 2 is refused, 3 follows it, and 4 waits when the connection is made.
abbrev before_reconnect : List (Event ℕ)
before_reconnect = try_send 1 ∷ try_send 2 ∷ try_send 3 ∷ tick (λ f. f == 1) ∷ try_send 4 ∷ []

abbrev after_reconnect : List (Event ℕ)
after_reconnect = try_send 5 ∷ tick (λ f. true) ∷ try_send 6 ∷ []

steps-reconnect_example :
    (steps (before_reconnect ++ reconnect ∷ after_reconnect) empty_outgoing).wire ≡ 1 ∷ 5 ∷ []
unfolding steps
steps-reconnect_example = steps-reconnect before_reconnect after_reconnect empty_outgoing

steps_order_example :
    (steps sample_events empty_outgoing).wire ++ (steps sample_events empty_outgoing).queue
    ≡ 1 ∷ 2 ∷ 3 ∷ []
unfolding taken_frames enqueue step
steps_order_example = steps_order sample_events empty_outgoing ((λ f. refl), tt)
