-- ===== src/Sensors/System/Tests.antt =====
-- sensors/system.rs: rates and temperatures.
use uswarm_unitctl.Base.{
  ◌≡◌, refl, false, some, codes, parse_i64, digits_value, trim, trim_start, is_whitespace, ok, err,
}
use uswarm_unitctl.Float.{u64_as_f64, scaled_down}
use uswarm_unitctl.Float.Ratio.{nearest, nearest_f64, round}
use uswarm_unitctl.Sensors.System.{
  compute_bps, rate, as_secs_f64, parse_temperature, invalid_integer,
}

one_second : compute_bps (some 1000) 2000 1000000000 ≡ 8000
unfolding compute_bps rate as_secs_f64 u64_as_f64 nearest nearest_f64 round
one_second = refl

reset_counter : compute_bps (some 1000) 999 1000000000 ≡ 0
unfolding compute_bps
reset_counter = refl

no_time : compute_bps (some 1000) 2000 0 ≡ 0
unfolding compute_bps rate as_secs_f64 u64_as_f64 nearest nearest_f64
no_time = refl

half_degree : parse_temperature (codes " 500 ") ≡ ok (scaled_down false 4503599627370496 53)
unfolding parse_temperature parse_i64 digits_value trim trim_start is_whitespace u64_as_f64
    nearest_f64
half_degree = refl

no_number : parse_temperature (codes "42.5") ≡ err invalid_integer
unfolding parse_temperature parse_i64 digits_value trim trim_start is_whitespace
no_number = refl
