-- ===== src/Mavlink/Reporter/Tests.antt =====
-- mavlink/telemetry_reporter.rs: ticks with two neighbour cells, and a slot that another task takes.

use uswarm_unitctl.Base.{◌≡◌, ◌≢◌, true, none, some, [], ◌∷◌, take, ℤ, pos, negsuc}
use uswarm_unitctl.Config.Sample.{sample_mavlink}
use uswarm_unitctl.Messages.Telemetry.{LteNeighborCell, LteReading, default_signal, default_ping}
use uswarm_unitctl.Mavlink.Frames.{MavFrame}
use uswarm_unitctl.Mavlink.Outgoing.{Outgoing}
use uswarm_unitctl.Mavlink.Reporter.{Interference, close, report_tick, tick_messages}
use uswarm_unitctl.Mavlink.Reporter.Sends.{
  quiet, open_link, add_frames, fitting, frames_for, report_tick_total, report_tick-pairs,
}

abbrev cell_of : ℤ → LteNeighborCell
cell_of id = record {
  pcid = id;
  rsrp = negsuc 99;
  rsrq = negsuc 9;
  rssi = negsuc 69;
  rssnr = pos 3;
  earfcn = pos 1850;
  last_seen = 900;
}

abbrev two_cells : LteReading
two_cells = record {
  imsi = [];
  signal = default_signal;
  neighbors = (pos 200, cell_of (pos 200)) ∷ (pos 100, cell_of (pos 100)) ∷ [];
}

abbrev empty_queue : Outgoing MavFrame
empty_queue = record { queue = []; wire = []; discarded = [] }

-- The receiver goes away during the third message.
abbrev closing : Interference
closing k = (close ∷ [], [])

report_tick_total_example :
    report_tick sample_mavlink closing
      (some 1)
      (some default_ping)
      (some two_cells)
      (open_link empty_queue)
    ≢ none
report_tick_total_example =
    report_tick_total sample_mavlink closing (some 1) (some default_ping) (some two_cells)
      (open_link empty_queue)

report_tick-pairs_example :
    report_tick sample_mavlink quiet (some 1) none (some two_cells) (open_link empty_queue)
    ≡ some (
      true,
      open_link (
          add_frames
            (take (fitting empty_queue) (
              frames_for sample_mavlink.gcs_sysid sample_mavlink.bs_sysid
                (tick_messages 1 sample_mavlink.self_compid default_ping two_cells)))
            empty_queue),
    )
report_tick-pairs_example = report_tick-pairs sample_mavlink 1 none (some two_cells) empty_queue
