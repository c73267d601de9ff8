-- ===== src/Sensors/Manager/Starts.antt =====
-- When the sensors start.
use uswarm_unitctl.Base.{
  ◌*◌, ◌^◌, ◌≤◌, ◌≡◌, ◌↔◌, ◌⊎◌, inl, inr, true, Option, none, some, Text, ok, arith,
}
use uswarm_unitctl.Float.{
  F64, nan, infinite, scaled_up, scaled_down, max_secs, is_finite, is_le_zero, from_secs_f64,
}
use uswarm_unitctl.Config.{Config, SensorsConfig, validate}
use uswarm_unitctl.Config.Valid.{IsPositive, IsOptionalPositive}
use uswarm_unitctl.Config.Accepts.{validate_iff}
use uswarm_unitctl.Sensors.Manager.{chosen_interval, new_manager}

-- A number of seconds that a `Duration` cannot hold.
abbrev pub Overflows : F64 → Type 0
Overflows (scaled_up negative mantissa scale) = max_secs ≤ mantissa * 2 ^ scale
Overflows (scaled_down negative mantissa scale) = max_secs * 2 ^ scale ≤ mantissa
Overflows _ = ⊥

-- A positive interval is refused exactly if it is too long.
from_secs_f64-none : (v : F64) → IsPositive v → (from_secs_f64 v ≡ none) ↔ Overflows v
unfolding from_secs_f64 is_finite is_le_zero
from_secs_f64-none nan h = ground arith
from_secs_f64-none (infinite n) h = ground arith
from_secs_f64-none (scaled_up n m s) h = ground arith
from_secs_f64-none (scaled_down n m s) h = ground arith

chosen-IsPositive :
    (o : Option F64) (v : F64)
    → IsOptionalPositive o
    → IsPositive v
    → IsPositive (chosen_interval o v)
chosen-IsPositive none v ho hv = hv
chosen-IsPositive (some w) v ho hv = ho

module _ (s : SensorsConfig) where
  -- Which sensors have an interval that cannot be held.
  abbrev pub PingOverflows : Type 0
  PingOverflows =
      (s.ping.enabled ≡ true) × Overflows (chosen_interval s.ping.interval_s s.default_interval_s)

  abbrev pub LteOverflows : Type 0
  LteOverflows =
      (s.lte.enabled ≡ true) × Overflows (chosen_interval s.lte.interval_s s.default_interval_s)

  abbrev pub SystemOverflows : Type 0
  SystemOverflows =
      (s.system.enabled ≡ true)
      × Overflows (chosen_interval s.system.interval_s s.default_interval_s)

  manager_none :
      (interface : Text)
      → (new_manager s interface ≡ none) ↔ (
          ((s.ping.enabled ≡ true)
            × (from_secs_f64 (chosen_interval s.ping.interval_s s.default_interval_s) ≡ none))
          ⊎ ((s.lte.enabled ≡ true)
              × (from_secs_f64 (chosen_interval s.lte.interval_s s.default_interval_s) ≡ none))
          ⊎ ((s.system.enabled ≡ true)
              × (from_secs_f64 (chosen_interval s.system.interval_s s.default_interval_s) ≡ none)))
  unfolding new_manager
  manager_none interface = (λ h. ground arith, λ h. ground arith)

-- With a configuration that `Config::validate` accepts, the construction of the sensors panics exactly
-- if an enabled sensor's interval, its own or the default one, is 2^64 seconds or more.
pub new_manager_panics :
    (c : Config) (interface : Text)
    → validate c ≡ ok tt
    → (new_manager c.sensors interface ≡ none)
      ↔ (PingOverflows c.sensors ⊎ LteOverflows c.sensors ⊎ SystemOverflows c.sensors)
new_manager_panics c interface valid =
    let v = ((validate_iff c).0 valid).sensors in
    let s = c.sensors in
    let default = v.default_interval in
    let p =
      from_secs_f64-none _
        (chosen-IsPositive s.ping.interval_s s.default_interval_s v.ping_interval default) in
    let l =
      from_secs_f64-none _
        (chosen-IsPositive s.lte.interval_s s.default_interval_s v.lte_interval default) in
    let y =
      from_secs_f64-none _
        (chosen-IsPositive s.system.interval_s s.default_interval_s v.system_interval default) in
    (
      λ h. elim ((manager_none s interface).0 h) [
        | inl (on, e) ↦ inl (on, p.0 e)
        | inr (inl (on, e)) ↦ inr (inl (on, l.0 e))
        | inr (inr (on, e)) ↦ inr (inr (on, y.0 e))
      ],
      λ h. (manager_none s interface).1 (elim h [
        | inl (on, e) ↦ inl (on, p.1 e)
        | inr (inl (on, e)) ↦ inr (inl (on, l.1 e))
        | inr (inr (on, e)) ↦ inr (inr (on, y.1 e))
      ]),
    )
