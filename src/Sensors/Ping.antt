-- ===== src/Sensors/Ping.antt =====
-- sensors/ping.rs: the readings, and the loop over one subprocess. What the regular expression finds in
-- a line is a parameter, as the events of the subprocess are.
pub mod Reading
mod Tests
use mathlib.Core.Option
use uswarm_unitctl.Base.{
  Text, ◌++◌, ◌^◌, length, split, parse_digits, parse_u64, ℕ, ◌+◌, ◌-◌, ◌*◌, ◌/◌, min, Bool, true,
  false, ◌&&◌, ◌||◌, Option, none, some, List, [], ◌∷◌, ltb, leb, ◌==◌, if◌then◌else◌, ℤ,
}
use uswarm_unitctl.Float.{F64, scaled_up, u64_as_f64}
use uswarm_unitctl.Float.Ratio.{nearest, nearest_f64, times, minus_from, ceil}
use uswarm_unitctl.Messages.Telemetry.{PingTelemetry}

pub record PingStats : Type 0 where
  pub packets_rcvd : ℕ
  pub packets_sent : ℕ
  pub latency_ms : Option F64

-- `s.parse::<f64>()` of a text of digits and dots, which is all that the expression lets through: at
-- most one dot, and a digit.
abbrev parse_parts : List Text → Option F64
parse_parts (whole ∷ []) = Option.map (λ n. nearest_f64 false n 1) (parse_digits whole)
parse_parts (whole ∷ decimals ∷ []) =
    Option.map (λ n. nearest_f64 false n (10 ^ length decimals)) (parse_digits (whole ++ decimals))
parse_parts _ = none

unfoldable pub parse_f64 : Text → Option F64
unfolding nearest_f64
parse_f64 s = parse_parts (split b'.' s)

-- The groups of the expression in a line that it matches; the third one is optional.
pub record Captures : Type 0 where
  pub rcvd : Text
  pub sent : Text
  pub ewma : Option Text

abbrev latency_of : Option Text → Option F64
latency_of none = none
latency_of (some s) = parse_f64 s

abbrev stats_of : Option ℕ → Option ℕ → Option F64 → Option PingStats
stats_of none sent latency_ms = none
stats_of (some rcvd) none latency_ms = none
stats_of (some rcvd) (some sent) latency_ms =
    some (record { packets_rcvd = rcvd; packets_sent = sent; latency_ms = latency_ms })

-- `parse_ping_line`, on what `re.captures(line)` finds.
unfoldable pub parse_ping_line : Option Captures → Option PingStats
unfolding parse_f64 parse_u64
parse_ping_line none = none
parse_ping_line (some caps) =
    stats_of (parse_u64 caps.rcvd) (parse_u64 caps.sent) (latency_of caps.ewma)

-- `100.0 - (delta_rcvd as f64 / delta_sent as f64) * 100.0`, rounded up, at most 100.
unfoldable pub calculate_loss_percent : ℕ → ℕ → ℕ
unfolding nearest times minus_from ceil u64_as_f64
calculate_loss_percent delta_sent delta_rcvd =
    let received = times 100 (nearest (u64_as_f64 delta_rcvd) (u64_as_f64 delta_sent)) in
    if delta_sent == 0 || leb delta_sent delta_rcvd
    then 0
    else min (ceil (minus_from 100 received)) 100

abbrev pub is_known : Option F64 → Bool
is_known none = false
is_known (some latency) = true

abbrev latency_or_zero : Option F64 → F64
latency_or_zero none = scaled_up false 0 0
latency_or_zero (some latency) = latency

-- `compute_reading`; the new values of `prev_sent` and `prev_rcvd` follow the reading.
unfoldable pub compute_reading : PingStats → ℕ → ℕ → PingTelemetry × (ℕ × ℕ)
unfolding calculate_loss_percent
compute_reading stats prev_sent prev_rcvd =
    let loss_percent =
      calculate_loss_percent (stats.packets_sent - prev_sent) (stats.packets_rcvd - prev_rcvd) in
    (
      record {
        reachable = is_known stats.latency_ms && ltb loss_percent 100;
        latency_ms = latency_or_zero stats.latency_ms;
        loss_percent = loss_percent;
      },
      (stats.packets_sent, stats.packets_rcvd),
    )

-- What the loop of `run_ping_subprocess` is told: a line with what is parsed from it, the end of the
-- lines, an error in reading them, the end of the process with its code, the cancellation.
pub data PingEvent : Type 0 where
  line : Option PingStats → PingEvent
  end_of_lines : PingEvent
  read_error : PingEvent
  exited : Option ℤ → PingEvent
  cancelled : PingEvent

pub data PingExit : Type 0 where
  was_cancelled : PingExit
  process_exited : Option ℤ → PingExit
  still_running : PingExit

-- The variables of the loop, and the reading in the context.
pub record PingState : Type 0 where
  pub prev_sent : ℕ
  pub prev_rcvd : ℕ
  pub stderr_open : Bool
  pub reading : Option PingTelemetry

abbrev stored : PingTelemetry × (ℕ × ℕ) → PingState → PingState
stored (r, (sent, rcvd)) s = record s { prev_sent = sent; prev_rcvd = rcvd; reading = some r }

abbrev pub after_line : Option PingStats → PingState → PingState
after_line none s = s
after_line (some stats) s = stored (compute_reading stats s.prev_sent s.prev_rcvd) s

abbrev pub unreachable : PingTelemetry
unreachable = record { reachable = false; latency_ms = scaled_up false 0 0; loss_percent = 100 }

-- The loop, from the spawned process on; no line is taken after the end of the lines.
unfoldable pub ping_loop : List PingEvent → PingState → PingExit × PingState
unfolding compute_reading
ping_loop [] s = (still_running, s)
ping_loop (line stats ∷ events) s =
    ping_loop events (if s.stderr_open then after_line stats s else s)
ping_loop (end_of_lines ∷ events) s = ping_loop events (record s { stderr_open = false })
ping_loop (read_error ∷ events) s = ping_loop events s
ping_loop (exited code ∷ events) s = (process_exited code, record s { reading = some unreachable })
ping_loop (cancelled ∷ events) s = (was_cancelled, s)

-- `run_ping_subprocess` where the process is spawned: the counters start at 0.
unfoldable pub run_ping_subprocess :
    List PingEvent → Option PingTelemetry → PingExit × Option PingTelemetry
unfolding ping_loop
run_ping_subprocess events reading =
    let (exit, s) =
      ping_loop events
        (record { prev_sent = 0; prev_rcvd = 0; stderr_open = true; reading = reading }) in
    (exit, s.reading)

-- `PingSensor::run`: its rounds, `none` for a process that could not be spawned; the cancellation in the
-- pause after a round ends the row.
abbrev pub next_round :
    PingExit × Option PingTelemetry
    → (Option PingTelemetry → Option PingTelemetry)
    → Option PingTelemetry
next_round (was_cancelled, reading) next = reading
next_round (process_exited code, reading) next = next reading
next_round (still_running, reading) next = reading

unfoldable pub run_ping :
    List (Option (List PingEvent)) → Option PingTelemetry → Option PingTelemetry
unfolding run_ping_subprocess
run_ping [] reading = reading
run_ping (none ∷ rounds) reading = run_ping rounds reading
run_ping (some events ∷ rounds) reading =
    next_round (run_ping_subprocess events reading) (λ r. run_ping rounds r)
