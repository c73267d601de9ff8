-- ===== src/Mqtt/Commands/Tests.antt =====
-- services/mqtt/commands.rs: a bridge that misses three events.
use uswarm_unitctl.Base.{ℕ, ◌≡◌, refl, true, false, [], ◌∷◌}
use uswarm_unitctl.Mqtt.Commands.{received, missed, fill_bridge_queue}

missed_three :
    fill_bridge_queue {E = ℕ} (received 1 true ∷ missed 3 ∷ received 5 true ∷ []) ≡ 1 ∷ 5 ∷ []
unfolding fill_bridge_queue
missed_three = refl

dropped_receiver : fill_bridge_queue {E = ℕ} (received 1 false ∷ received 5 true ∷ []) ≡ []
unfolding fill_bridge_queue
dropped_receiver = refl
