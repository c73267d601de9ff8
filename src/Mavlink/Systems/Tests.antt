-- ===== src/Mavlink/Systems/Tests.antt =====
-- Heartbeats of two flight controllers, the sniffer and a ground station, with no own id given.
use uswarm_unitctl.Base.{ℕ, ◌≡◌, ◌≤◌, ◌||◌, ◌&&◌, not, refl, some, List, [], ◌∷◌}
use uswarm_unitctl.Config.{MavlinkConfig}
use uswarm_unitctl.Config.Sample.{sample_mavlink}
use uswarm_unitctl.Mavlink.Systems.{self_sysid, handle_heartbeats, has_system}
use uswarm_unitctl.Mavlink.Systems.Discovery.{is_internal, handle_heartbeats-has}
use uswarm_unitctl.Mavlink.Systems.Own.{IsHeard, self_sysid_sound}

abbrev discovering : MavlinkConfig
discovering = record sample_mavlink { self_sysid = 0 }

abbrev heard_ids : List ℕ
heard_ids = 199 ∷ 7 ∷ 3 ∷ 255 ∷ 7 ∷ []

handle_heartbeats-has_example :
    has_system (handle_heartbeats discovering [] heard_ids) 199
    ≡ (has_system [] 199 || (not (is_internal discovering 199) && has_system heard_ids 199))
handle_heartbeats-has_example = handle_heartbeats-has discovering heard_ids [] 199

least_heard : self_sysid discovering (handle_heartbeats discovering [] heard_ids) ≡ some 3
unfolding self_sysid handle_heartbeats
least_heard = refl

self_sysid_sound_example :
    IsHeard discovering heard_ids 3
    × ((other : ℕ) → IsHeard discovering heard_ids other → 3 ≤ other)
self_sysid_sound_example = (self_sysid_sound discovering heard_ids 3 least_heard).1 refl
