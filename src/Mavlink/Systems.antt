-- ===== src/Mavlink/Systems.antt =====
-- The discovered systems: `Context` of context.rs with `MavlinkSniffer::handle_heartbeat` of
-- mavlink/sniffer_component.rs. The set of ids is a list without repetitions.
pub mod Discovery
pub mod Own
mod Tests
use uswarm_unitctl.Base.{
  ℕ, Bool, true, false, ◌&&◌, ◌||◌, Option, none, some, List, [], ◌∷◌, ◌++◌, ltb, min, any, ◌==◌,
  if◌then◌else◌,
}
use uswarm_unitctl.Config.{MavlinkConfig}

abbrev pub fc_sysid_threshold : ℕ
fc_sysid_threshold = 200

-- `is_fc_sysid`
unfoldable pub is_fc_sysid : ℕ → Bool
is_fc_sysid id = ltb 0 id && ltb id fc_sysid_threshold

-- `Context::has_system`
unfoldable pub has_system : List ℕ → ℕ → Bool
has_system systems id = any (λ s. s == id) systems

-- `Context::add_system`, with its answer whether the id is new.
unfoldable pub add_system : List ℕ → ℕ → List ℕ × Bool
unfolding has_system
add_system systems id =
    if has_system systems id then (systems, false) else (systems ++ id ∷ [], true)

-- `Context::get_fc_sysids`
unfoldable pub get_fc_sysids : List ℕ → List ℕ
unfolding is_fc_sysid
get_fc_sysids [] = []
get_fc_sysids (id ∷ systems) =
    let rest = get_fc_sysids systems in if is_fc_sysid id then id ∷ rest else rest

-- `into_iter().min()`
unfoldable pub minimum : List ℕ → Option ℕ
minimum [] = none
minimum (id ∷ ids) = elim (minimum ids) [ none ↦ some id | some least ↦ some (min id least) ]

-- `Context::self_sysid`
unfoldable pub self_sysid : MavlinkConfig → List ℕ → Option ℕ
unfolding get_fc_sysids minimum
self_sysid config systems =
    if ltb 0 config.self_sysid then some config.self_sysid else minimum (get_fc_sysids systems)

-- `MavlinkSniffer::handle_heartbeat`
unfoldable pub handle_heartbeat : MavlinkConfig → List ℕ → ℕ → List ℕ
unfolding add_system
handle_heartbeat config systems sysid =
    if (sysid == config.sniffer_sysid) || (sysid == config.bs_sysid) || (sysid == config.gcs_sysid)
    then systems
    else (add_system systems sysid).0

-- The systems after a row of heartbeats.
unfoldable pub handle_heartbeats : MavlinkConfig → List ℕ → List ℕ → List ℕ
unfolding handle_heartbeat
handle_heartbeats config systems [] = systems
handle_heartbeats config systems (sysid ∷ heard) =
    handle_heartbeats config (handle_heartbeat config systems sysid) heard
