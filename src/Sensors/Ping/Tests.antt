-- ===== src/Sensors/Ping/Tests.antt =====
-- sensors/ping.rs: losses, among them one that the rounding of `f64` makes a percent too high.
use uswarm_unitctl.Base.{
  parse_u64, codes, false, digits_value, split, ◌≡◌, refl, false, none, some, List, [], ◌∷◌, arith,
}
use uswarm_unitctl.Float.{scaled_up, scaled_down, u64_as_f64}
use uswarm_unitctl.Float.Ratio.{nearest, nearest_f64, times, minus_from, ceil}
use uswarm_unitctl.Sensors.Ping.{
  PingStats, parse_ping_line, parse_f64, PingEvent, line, exited, calculate_loss_percent,
  compute_reading, run_ping,
}
use uswarm_unitctl.Sensors.Ping.Reading.{IsReading, compute_reading_lost, run_ping-IsReading}

half_lost : calculate_loss_percent 10 5 ≡ 50
unfolding calculate_loss_percent u64_as_f64 nearest nearest_f64 times minus_from ceil
half_lost = refl

third_lost : calculate_loss_percent 3 2 ≡ 34
unfolding calculate_loss_percent u64_as_f64 nearest nearest_f64 times minus_from ceil
third_lost = refl

-- 43 of 100 packets are lost.
loss_43 : calculate_loss_percent 100 57 ≡ 44
unfolding calculate_loss_percent u64_as_f64 nearest nearest_f64 times minus_from ceil
loss_43 = refl

abbrev late_stats : PingStats
late_stats = record {
  packets_rcvd = 8;
  packets_sent = 20;
  latency_ms = some (scaled_up false 25 0);
}

compute_reading_lost_example :
    ((compute_reading late_stats 15 8).0.reachable ≡ false)
    × ((compute_reading late_stats 15 8).0.loss_percent ≡ 100)
compute_reading_lost_example = compute_reading_lost late_stats 15 8 (omega arith) (omega arith)

abbrev two_lines : List PingEvent
two_lines = line (some late_stats) ∷ line none ∷ exited none ∷ []

two_rounds_read : IsReading (run_ping (none ∷ some two_lines ∷ some [] ∷ []) none)
two_rounds_read = run_ping-IsReading (none ∷ some two_lines ∷ some [] ∷ []) none tt

parsed_line :
    parse_ping_line
      (some (record { rcvd = codes "8"; sent = codes "20"; ewma = some (codes "25.5") }))
    ≡ some (record {
      packets_rcvd = 8;
      packets_sent = 20;
      latency_ms = some (scaled_down false 7177611906121728 48);
    })
unfolding parse_ping_line parse_f64 parse_u64 digits_value split nearest_f64
parsed_line = refl
