-- ===== src/Mavlink/Heartbeat/Silent.antt =====
-- mavlink/mod.rs: no heartbeat before a flight controller is known.
use uswarm_unitctl.Base.{
  ℕ, ◌≡◌, ◌≢◌, refl, ap, ◌∙◌, Option-cases, Bool-cases, none, some, inl, inr, ltb, List, [], ◌∷◌,
}
use uswarm_unitctl.Config.{MavlinkConfig}
use uswarm_unitctl.Mavlink.Frames.{MavFrame}
use uswarm_unitctl.Mavlink.Systems.{get_fc_sysids, minimum, self_sysid}
use uswarm_unitctl.Mavlink.Reporter.{Link}
use uswarm_unitctl.Mavlink.Heartbeat.{
  waiting, stopped, Beat, tick, cancel, beat, heartbeat_loop, after_wait, resolved, drone_heartbeat,
}

-- No tick finds a flight controller.
abbrev pub IsAlone : List Beat → Type 0
IsAlone [] = Unit
IsAlone (tick systems ∷ bs) = (get_fc_sysids systems ≡ []) × IsAlone bs
IsAlone (cancel ∷ bs) = IsAlone bs

stopped_link :
    (sysid compid : ℕ) (bs : List Beat) (link : Link MavFrame)
    → (heartbeat_loop sysid compid bs (stopped, link)).1 ≡ link
unfolding heartbeat_loop beat
stopped_link sysid compid [] link = refl
stopped_link sysid compid (tick systems ∷ bs) link = stopped_link sysid compid bs link
stopped_link sysid compid (cancel ∷ bs) link = stopped_link sysid compid bs link

-- As long as the context has no flight controller, the loop of a component sends nothing.
pub heartbeat_loop_silent :
    (sysid compid : ℕ) (bs : List Beat) (link : Link MavFrame)
    → IsAlone bs
    → (heartbeat_loop sysid compid bs (waiting, link)).1 ≡ link
unfolding heartbeat_loop beat
heartbeat_loop_silent sysid compid [] link h = refl
heartbeat_loop_silent sysid compid (tick systems ∷ bs) link h =
    ap (λ ids. (heartbeat_loop sysid compid bs (after_wait ids, link)).1) h.0
    ∙ heartbeat_loop_silent sysid compid bs link h.1
heartbeat_loop_silent sysid compid (cancel ∷ bs) link h = stopped_link sysid compid bs link

-- The same of the heartbeat task of the drone component, which waits before that.
drone_heartbeat_silent :
    (config : MavlinkConfig) (bs : List Beat) (link : Link MavFrame)
    → IsAlone bs
    → (drone_heartbeat config bs link).1 ≡ link
unfolding drone_heartbeat
drone_heartbeat_silent config [] link h = refl
drone_heartbeat_silent config (tick systems ∷ bs) link h =
    ap
      (λ ids.
        (resolved config ids systems config.self_compid bs link (drone_heartbeat config bs link)).1)
      h.0
    ∙ drone_heartbeat_silent config bs link h.1
drone_heartbeat_silent config (cancel ∷ bs) link h = refl

some_ne_none : {A : Type 0} {a : A} → some a ≢ none
some_ne_none h = cc

minimum_some : (id : ℕ) (ids : List ℕ) → minimum (id ∷ ids) ≢ none
unfolding minimum
minimum_some id ids = elim (Option-cases (minimum ids)) [
  | inl e ↦ rw (minimum, e) some_ne_none
  | inr (m, e) ↦ rw (minimum, e) some_ne_none
]

-- The task always finds an id where a flight controller is known.
self_sysid_some :
    (config : MavlinkConfig) (systems : List ℕ) (id : ℕ) (ids : List ℕ)
    → get_fc_sysids systems ≡ id ∷ ids
    → self_sysid config systems ≢ none
unfolding self_sysid
self_sysid_some config systems id ids found = elim (Bool-cases (ltb 0 config.self_sysid)) [
  | inl e ↦ rw (self_sysid, e) some_ne_none
  | inr e ↦ rw (self_sysid, e, found) (minimum_some id ids)
]
