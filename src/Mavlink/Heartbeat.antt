-- ===== src/Mavlink/Heartbeat.antt =====
-- mavlink/mod.rs: `heartbeat_loop` with `wait_for_fc`, and how its frames enter the outgoing queue.
pub mod Silent
use uswarm_unitctl.Base.{ℕ, Option, none, some, List, [], ◌∷◌}
use uswarm_unitctl.Config.{MavlinkConfig}
use uswarm_unitctl.Mavlink.Frames.{MavFrame, build_heartbeat}
use uswarm_unitctl.Mavlink.Systems.{get_fc_sysids, self_sysid}
use uswarm_unitctl.Mavlink.Reporter.{Link, try_send, SendResult, closed}

-- Before the discovery, after it, and after the return.
pub data Phase : Type 0 where
  waiting beating stopped : Phase

-- A tick of the phase's timer with the systems of the context, or the cancellation.
pub data Beat : Type 0 where
  tick : List ℕ → Beat
  cancel : Beat

abbrev pub after_wait : List ℕ → Phase
after_wait [] = waiting
after_wait (id ∷ ids) = beating

abbrev after_send : SendResult × Link MavFrame → Phase × Link MavFrame
after_send (closed, link) = (stopped, link)
after_send (_, link) = (beating, link)

unfoldable pub beat : ℕ → ℕ → Beat → Phase × Link MavFrame → Phase × Link MavFrame
unfolding build_heartbeat get_fc_sysids try_send
beat sysid compid (tick systems) (waiting, link) = (after_wait (get_fc_sysids systems), link)
beat sysid compid (tick systems) (beating, link) =
    after_send (try_send (build_heartbeat sysid compid) link)
beat sysid compid (tick systems) (stopped, link) = (stopped, link)
beat sysid compid cancel (phase, link) = (stopped, link)

unfoldable pub heartbeat_loop : ℕ → ℕ → List Beat → Phase × Link MavFrame → Phase × Link MavFrame
unfolding beat
heartbeat_loop sysid compid [] s = s
heartbeat_loop sysid compid (b ∷ bs) s = heartbeat_loop sysid compid bs (beat sysid compid b s)

abbrev known_id : Option ℕ → ℕ → List Beat → Link MavFrame → Phase × Link MavFrame
known_id none compid bs link = (stopped, link)
known_id (some sysid) compid bs link = heartbeat_loop sysid compid bs (waiting, link)

abbrev pub resolved :
    MavlinkConfig
    → List ℕ
    → List ℕ
    → ℕ
    → List Beat
    → Link MavFrame
    → Phase × Link MavFrame
    → Phase × Link MavFrame
resolved config [] systems compid bs link still = still
resolved config (id ∷ ids) systems compid bs link still =
    known_id (self_sysid config systems) compid bs link

-- The heartbeat task of `DroneComponent`: it waits for a flight controller, finds its own id among the
-- systems of that tick, and goes on with the loop, which waits once more.
unfoldable pub drone_heartbeat : MavlinkConfig → List Beat → Link MavFrame → Phase × Link MavFrame
unfolding heartbeat_loop get_fc_sysids self_sysid
drone_heartbeat config [] link = (waiting, link)
drone_heartbeat config (cancel ∷ bs) link = (stopped, link)
drone_heartbeat config (tick systems ∷ bs) link =
    let still = drone_heartbeat config bs link in
    resolved config (get_fc_sysids systems) systems config.self_compid bs link still
