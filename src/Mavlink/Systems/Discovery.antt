-- ===== src/Mavlink/Systems/Discovery.antt =====
-- What the discovery finds.

use uswarm_unitctl.Base.{
  ℕ, ◌≡◌, inl, inr, refl, sym, ap, ◌∙◌, Bool, true, false, not, ◌&&◌, ◌||◌, List, [], ◌∷◌, ◌++◌,
  ◌==◌, ==_iff, arith, Bool-cases,
}
use uswarm_unitctl.Config.{MavlinkConfig}
use uswarm_unitctl.Mavlink.Systems.{has_system, add_system, handle_heartbeat, handle_heartbeats}

-- The ids of the sniffer, the base station and the ground station.
abbrev pub is_internal : MavlinkConfig → ℕ → Bool
is_internal config id =
    (id == config.sniffer_sysid) || (id == config.bs_sysid) || (id == config.gcs_sysid)

or_false : (b : Bool) → (b || false) ≡ b
or_false true = refl
or_false false = refl

nothing : (b c : Bool) → b ≡ (b || (not c && false))
nothing true c = refl
nothing false true = refl
nothing false false = refl

nothing' : (b c : Bool) → (b || false) ≡ (b || (not c && false))
nothing' true c = refl
nothing' false true = refl
nothing' false false = refl

regroup : (a b c d : Bool) → ((a || (b && c)) || (b && d)) ≡ (a || (b && (c || d)))
regroup true b c d = refl
regroup false true c d = refl
regroup false false c d = refl

has_system-append :
    (xs : List ℕ) (y id : ℕ) → has_system (xs ++ y ∷ []) id ≡ (has_system xs id || y == id)
unfolding has_system
has_system-append [] y id = ground arith
has_system-append (x ∷ xs) y id = ground (arith, has_system-append xs y id)

-- An id that is heard is there afterwards unless it is internal.
add_system-has :
    (systems : List ℕ) (sysid id : ℕ)
    → has_system (add_system systems sysid).0 id ≡ (has_system systems id || sysid == id)
unfolding add_system
add_system-has systems sysid id = elim (Bool-cases (has_system systems sysid)) [
  | inr new ↦ rw new (has_system-append systems sysid id)
  | inl known ↦ rw known (elim (Bool-cases (sysid == id)) [
    | inr other ↦ rw other (sym (or_false (has_system systems id)))
    | inl same ↦ rw (sym (ap (has_system systems) ((==_iff sysid id).0 same)), known) refl
  ])
]

handle_heartbeat-has :
    (config : MavlinkConfig) (systems : List ℕ) (sysid id : ℕ)
    → has_system (handle_heartbeat config systems sysid) id
      ≡ (has_system systems id || (not (is_internal config id) && (sysid == id)))
unfolding handle_heartbeat
handle_heartbeat-has config systems sysid id = elim (Bool-cases (sysid == id)) [
  | inl same ↦
      let e = (==_iff sysid id).0 same in
      elim (Bool-cases (is_internal config sysid)) [
        | inl internal ↦
            rw (internal, sym (ap (is_internal config) e) ∙ internal)
              (sym (or_false (has_system systems id)))
        | inr outside ↦
            rw (outside, sym (ap (is_internal config) e) ∙ outside)
              (add_system-has systems sysid id)
      ]
  | inr other ↦ elim (Bool-cases (is_internal config sysid)) [
    | inl internal ↦ rw (internal, other) (nothing (has_system systems id) (is_internal config id))
    | inr outside ↦
        rw (outside, add_system-has systems sysid id, other)
          (nothing' (has_system systems id) (is_internal config id))
  ]
]

-- The systems that are known after a row of heartbeats are those known before and those heard, but
-- the sniffer's, the base station's and the ground station's ids are never added.
pub handle_heartbeats-has :
    (config : MavlinkConfig) (heard systems : List ℕ) (id : ℕ)
    → has_system (handle_heartbeats config systems heard) id
      ≡ (has_system systems id || (not (is_internal config id) && has_system heard id))
unfolding handle_heartbeats has_system
handle_heartbeats-has config [] systems id = nothing (has_system systems id) (is_internal config id)
handle_heartbeats-has config (sysid ∷ heard) systems id =
    handle_heartbeats-has config heard (handle_heartbeat config systems sysid) id
    ∙ rw (handle_heartbeat-has config systems sysid id) (
        regroup (has_system systems id) (not (is_internal config id)) (sysid == id)
          (has_system heard id))
