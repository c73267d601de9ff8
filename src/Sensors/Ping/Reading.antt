-- ===== src/Sensors/Ping/Reading.antt =====
-- sensors/ping.rs: when the host counts as reachable.
use uswarm_unitctl.Base.{
  ℕ, ◌-◌, ◌≤◌, ◌<◌, min, ◌≡◌, refl, ap, ◌∙◌, Bool, true, false, ◌&&◌, ◌||◌, &&_false, [], ◌∷◌,
  Option, none, some, List, ltb, leb, ◌==◌, if◌then◌else◌, arith,
}
use uswarm_unitctl.Float.{u64_as_f64}
use uswarm_unitctl.Float.Ratio.{nearest, nearest_f64, times, minus_from, ceil}
use uswarm_unitctl.Messages.Telemetry.{PingTelemetry}
use uswarm_unitctl.Sensors.Ping.{
  PingEvent, PingState, line, end_of_lines, read_error, exited, cancelled, after_line, ping_loop,
  run_ping_subprocess, run_ping, next_round, PingExit, was_cancelled, process_exited, still_running,
  PingStats, calculate_loss_percent, compute_reading, is_known,
}

none_received : (sent : ℕ) → 0 < sent → calculate_loss_percent sent 0 ≡ 100
unfolding calculate_loss_percent u64_as_f64 nearest nearest_f64 times minus_from ceil
none_received sent h =
    let some_sent : (sent == 0) ≡ false = ground arith in
    let fewer : leb sent 0 ≡ false = ground arith in
    rw (calculate_loss_percent, some_sent, fewer) refl

zero_or_min : (b : Bool) (x : ℕ) → (if b then 0 else min x 100) ≤ 100
zero_or_min true x = omega arith
zero_or_min false x = omega arith

not_at_100 : (k : Bool) (loss : ℕ) → ((k && ltb loss 100) && leb 100 loss) ≡ false
not_at_100 k loss = ground arith

loss_at_most : (sent rcvd : ℕ) → calculate_loss_percent sent rcvd ≤ 100
unfolding calculate_loss_percent
loss_at_most sent rcvd = zero_or_min ((sent == 0) || leb sent rcvd) _

all_received : (sent rcvd : ℕ) → sent ≤ rcvd → calculate_loss_percent sent rcvd ≡ 0
unfolding calculate_loss_percent
all_received sent rcvd h =
    let e : ((sent == 0) || leb sent rcvd) ≡ true = ground arith in
    rw (calculate_loss_percent, e) refl

-- Where packets were sent since the last reading and none came back, the reading is unreachable with a
-- loss of 100 percent, even with a latency of earlier packets in it.
pub compute_reading_lost :
    (stats : PingStats) (prev_sent prev_rcvd : ℕ)
    → prev_sent < stats.packets_sent
    → stats.packets_rcvd ≤ prev_rcvd
    → ((compute_reading stats prev_sent prev_rcvd).0.reachable ≡ false)
      × ((compute_reading stats prev_sent prev_rcvd).0.loss_percent ≡ 100)
unfolding compute_reading
compute_reading_lost stats prev_sent prev_rcvd sent received =
    let none_back : stats.packets_rcvd - prev_rcvd ≡ 0 = omega (arith, received) in
    let loss : calculate_loss_percent (stats.packets_sent - prev_sent)
          (stats.packets_rcvd - prev_rcvd)
        ≡ 100 =
      ap (calculate_loss_percent (stats.packets_sent - prev_sent)) none_back
      ∙ none_received (stats.packets_sent - prev_sent) (omega (arith, sent)) in
    (rw loss (&&_false (is_known stats.latency_ms)), loss)

-- A reading in the context is sound: a loss of 100 percent at most, and no reachable host at 100.
abbrev pub IsReading : Option PingTelemetry → Type 0
IsReading none = Unit
IsReading (some r) = (r.loss_percent ≤ 100) × ((r.reachable && leb 100 r.loss_percent) ≡ false)

compute_reading-IsReading :
    (stats : PingStats) (prev_sent prev_rcvd : ℕ)
    → IsReading (some (compute_reading stats prev_sent prev_rcvd).0)
unfolding compute_reading
compute_reading-IsReading stats prev_sent prev_rcvd = (
  loss_at_most (stats.packets_sent - prev_sent) (stats.packets_rcvd - prev_rcvd),
  not_at_100 (is_known stats.latency_ms)
      (calculate_loss_percent (stats.packets_sent - prev_sent) (stats.packets_rcvd - prev_rcvd)),
)

after_line-IsReading :
    (o : Option PingStats) (s : PingState)
    → IsReading s.reading
    → IsReading (after_line o s).reading
after_line-IsReading none s h = h
after_line-IsReading (some stats) s h = compute_reading-IsReading stats s.prev_sent s.prev_rcvd

if_open-IsReading :
    (is_open : Bool) (o : Option PingStats) (s : PingState)
    → IsReading s.reading
    → IsReading (if is_open then after_line o s else s).reading
if_open-IsReading true o s h = after_line-IsReading o s h
if_open-IsReading false o s h = h

ping_loop-IsReading :
    (events : List PingEvent) (s : PingState)
    → IsReading s.reading
    → IsReading (ping_loop events s).1.reading
unfolding ping_loop
ping_loop-IsReading [] s h = h
ping_loop-IsReading (line o ∷ events) s h =
    ping_loop-IsReading events _ (if_open-IsReading s.stderr_open o s h)
ping_loop-IsReading (end_of_lines ∷ events) s h =
    ping_loop-IsReading events (record s { stderr_open = false }) h
ping_loop-IsReading (read_error ∷ events) s h = ping_loop-IsReading events s h
ping_loop-IsReading (exited code ∷ events) s h = (omega arith, refl)
ping_loop-IsReading (cancelled ∷ events) s h = h

run_ping_subprocess-IsReading :
    (events : List PingEvent) (reading : Option PingTelemetry)
    → IsReading reading
    → IsReading (run_ping_subprocess events reading).1
unfolding run_ping_subprocess
run_ping_subprocess-IsReading events reading h = ping_loop-IsReading events _ h

next_round-IsReading :
    (r : PingExit × Option PingTelemetry) (next : Option PingTelemetry → Option PingTelemetry)
    → ((o : Option PingTelemetry) → IsReading o → IsReading (next o))
    → IsReading r.1
    → IsReading (next_round r next)
next_round-IsReading (was_cancelled, reading) next k h = h
next_round-IsReading (process_exited code, reading) next k h = k reading h
next_round-IsReading (still_running, reading) next k h = h

-- Whatever the subprocesses of the sensor report and however often they are started again, the reading
-- in the context has a loss of 100 percent at most and is not reachable at 100, if the reading at the
-- start was so or there was none.
pub run_ping-IsReading :
    (rounds : List (Option (List PingEvent))) (reading : Option PingTelemetry)
    → IsReading reading
    → IsReading (run_ping rounds reading)
unfolding run_ping
run_ping-IsReading [] reading h = h
run_ping-IsReading (none ∷ rounds) reading h = run_ping-IsReading rounds reading h
run_ping-IsReading (some events ∷ rounds) reading h =
    next_round-IsReading (run_ping_subprocess events reading) (λ r. run_ping rounds r)
      (λ o. run_ping-IsReading rounds o) (run_ping_subprocess-IsReading events reading h)
