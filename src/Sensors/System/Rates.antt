-- ===== src/Sensors/System/Rates.antt =====
-- sensors/system.rs: the rates of the interfaces.
use uswarm_unitctl.Base.{
  ℕ, ◌<◌, ◌-◌, ◌^◌, min, ◌≡◌, Bool, true, false, Bool-cases, inl, inr, Option, none, some, List, [],
  ◌∷◌, All, Text, ltb, ◌==◌, if◌then◌else◌, arith,
}
use uswarm_unitctl.Messages.Telemetry.{NetworkInterfaceTelemetry}
use uswarm_unitctl.Sensors.System.{
  compute_bps, rate, as_secs_f64, is_loopback, NetBytes, sample_interfaces,
}

-- The interface is no loopback, and its rates fit in 64 bits.
abbrev pub IsReported : NetworkInterfaceTelemetry → Type 0
IsReported i = (is_loopback i.name ≡ false) × ((i.rx_bps < 2 ^ 64) × (i.tx_bps < 2 ^ 64))

bounded_rate : (b : Bool) (x : ℕ) → (if b then 0 else min x (2 ^ 64 - 1)) < 2 ^ 64
bounded_rate true x = omega arith
bounded_rate false x = omega arith

compute_bps_bounded : (prev : Option ℕ) (curr elapsed : ℕ) → compute_bps prev curr elapsed < 2 ^ 64
unfolding compute_bps rate
compute_bps_bounded none curr elapsed = omega arith
compute_bps_bounded (some prev) curr elapsed = elim (Bool-cases (ltb curr prev)) [
  | inl e ↦ rw e (omega arith)
  | inr e ↦ rw e (bounded_rate ((as_secs_f64 elapsed).0 == 0) _)
]

-- Every interface that is reported is no loopback, and its rates fit in 64 bits.
sample_interfaces-IsReported :
    (prev : NetBytes) (ips : List (Text × List Text)) (elapsed : ℕ) (now : NetBytes)
    → All IsReported (sample_interfaces prev ips elapsed now)
unfolding sample_interfaces
sample_interfaces-IsReported prev ips elapsed [] = tt
sample_interfaces-IsReported prev ips elapsed ((name, (rx, tx)) ∷ rest) =
    let later = sample_interfaces-IsReported prev ips elapsed rest in
    elim (Bool-cases (is_loopback name)) [
      | inl e ↦ rw (sample_interfaces, e) later
      | inr e ↦
          rw (sample_interfaces, e)
            ((e, (compute_bps_bounded _ rx elapsed, compute_bps_bounded _ tx elapsed)), later)
    ]
