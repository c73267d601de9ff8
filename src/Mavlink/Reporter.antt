-- ===== src/Mavlink/Reporter.antt =====
-- mavlink/telemetry_reporter.rs: the messages of a tick, and how they enter the outgoing queue.
pub mod Sends
pub mod Order
pub mod Polled
mod Tests
use uswarm_unitctl.Base.{
  ℕ, zero, suc, ◌-◌, Bool, true, false, Option, none, some, List, [], ◌∷◌, ◌++◌, length, take, map,
  ltb, ◌==◌, if◌then◌else◌, ℤ, int_leb,
}
use uswarm_unitctl.Float.{F64, scaled_up, int_as_f32, nat_as_f32, f64_as_f32}
use uswarm_unitctl.Messages.Telemetry.{
  LteReading, LteNeighborCell, PingTelemetry, default_ping, default_reading, cells,
}
use uswarm_unitctl.Config.{MavlinkConfig}
use uswarm_unitctl.Mavlink.Frames.{MavFrame, Route, build_command_long}
use uswarm_unitctl.Mavlink.Subcommands.{
  MavCmdUser1SubCmd, lte_radio_telemetry, lte_ip_telemetry, lte_ip_telemetry_neighbors_0,
  lte_ip_telemetry_neighbors_1, lte_ip_telemetry_neighbors_2, lte_ip_telemetry_neighbors_3,
  lte_ip_telemetry_neighbors_4, lte_ip_telemetry_neighbors_5, lte_ip_telemetry_neighbors_6,
  lte_ip_telemetry_neighbors_7, lte_ip_telemetry_neighbors_8, lte_ip_telemetry_neighbors_9,
}
use uswarm_unitctl.Mavlink.Outgoing.{Outgoing, Event, outgoing_capacity, enqueue, steps}

-- The outgoing queue and whether its receiver still exists.
pub record Link (F : Type 0) : Type 0 where
  pub outgoing : Outgoing F
  pub is_open : Bool

-- What other tasks do with the queue.
pub data Other (F : Type 0) : Type 0 where
  act : Event F → Other F
  close : Other F

pub data SendResult : Type 0 where
  sent full closed : SendResult

-- The loop over the two frames; it goes on after a full queue and stops at a closed one.
abbrev goes_on : SendResult → Bool
goes_on closed = false
goes_on _ = true

module _ {F : Type 0} where
  abbrev pub other : Other F → Link F → Link F
  other (act e) link = record link { outgoing = steps (e ∷ []) link.outgoing }
  other close link = record link { is_open = false }

  unfoldable pub others : List (Other F) → Link F → Link F
  unfolding steps
  others [] link = link
  others (o ∷ os) link = others os (other o link)

  abbrev queued : Outgoing F × Bool → SendResult × Outgoing F
  queued (s, true) = (sent, s)
  queued (s, false) = (full, s)

  -- `tx_outgoing.try_send(frame)`
  unfoldable pub try_send : F → Link F → SendResult × Link F
  unfolding enqueue
  try_send frame link =
      let (result, s) = queued (enqueue frame link.outgoing) in
      if link.is_open then (result, record link { outgoing = s }) else (closed, link)

  -- `send_to_both` with the two frames that `build_fn` made. Other tasks act between the test of the
  -- capacity and the first send, and between the two sends.
  unfoldable pub send_frames : F → F → List (Other F) × List (Other F) → Link F → Bool × Link F
  unfolding try_send others
  send_frames gcs_frame bs_frame between link =
      if ltb (outgoing_capacity - length link.outgoing.queue) 2
      then (link.is_open, link)
      else let (first, link') = try_send gcs_frame (others between.0 link) in
        let (second, link'') = try_send bs_frame (others between.1 link') in
        if goes_on first then (goes_on second, link'') else (false, link')

  abbrev both_frames :
      Option F → Option F → List (Other F) × List (Other F) → Link F → Option (Bool × Link F)
  both_frames none bs between link = none
  both_frames (some gcs) none between link = none
  both_frames (some gcs) (some bs) between link = some (send_frames gcs bs between link)

  -- `TelemetryReporter::send_to_both`; `none` is a panic of `build_fn`.
  unfoldable pub send_to_both :
      (ℕ → ℕ → Option F) → ℕ → ℕ → List (Other F) × List (Other F) → Link F → Option (Bool × Link F)
  unfolding send_frames
  send_to_both build_fn gcs_sysid bs_sysid between link =
      both_frames (build_fn gcs_sysid 0) (build_fn bs_sysid 0) between link

-- The three messages, for a sender and a receiver.
unfoldable pub build_lte_radio_telemetry : Route → LteReading → MavFrame
unfolding build_command_long int_as_f32
build_lte_radio_telemetry route lte =
    build_command_long route lte_radio_telemetry (int_as_f32 lte.signal.rssi)
      (int_as_f32 lte.signal.rsrq) (int_as_f32 lte.signal.rsrp) (int_as_f32 lte.signal.rssnr)
      (int_as_f32 lte.signal.earfcn) (int_as_f32 lte.signal.tx_power)

unfoldable pub build_lte_ip_telemetry : Route → PingTelemetry → LteReading → MavFrame
unfolding build_command_long int_as_f32 nat_as_f32 f64_as_f32
build_lte_ip_telemetry route ping lte =
    build_command_long route lte_ip_telemetry
      (if ping.reachable then scaled_up false 1 0 else scaled_up false 0 0)
      (f64_as_f32 ping.latency_ms) (nat_as_f32 false ping.loss_percent) (int_as_f32 lte.signal.pcid)
      (nat_as_f32 false (length lte.neighbors)) (scaled_up false 0 0)

unfoldable pub neighbor_subcommand : ℕ → Option MavCmdUser1SubCmd
neighbor_subcommand slot =
    if slot == 0
    then some lte_ip_telemetry_neighbors_0
    else if slot == 1
    then some lte_ip_telemetry_neighbors_1
    else if slot == 2
    then some lte_ip_telemetry_neighbors_2
    else if slot == 3
    then some lte_ip_telemetry_neighbors_3
    else if slot == 4
    then some lte_ip_telemetry_neighbors_4
    else if slot == 5
    then some lte_ip_telemetry_neighbors_5
    else if slot == 6
    then some lte_ip_telemetry_neighbors_6
    else if slot == 7
    then some lte_ip_telemetry_neighbors_7
    else if slot == 8
    then some lte_ip_telemetry_neighbors_8
    else if slot == 9
    then some lte_ip_telemetry_neighbors_9
    else none

abbrev pub neighbor_frame : Route → LteNeighborCell → MavCmdUser1SubCmd → MavFrame
neighbor_frame route n subcmd =
    build_command_long route subcmd (int_as_f32 n.pcid) (int_as_f32 n.rsrp) (int_as_f32 n.rssi)
      (int_as_f32 n.rsrq) (int_as_f32 n.rssnr) (int_as_f32 n.earfcn)

-- `build_neighbor_telemetry` with the values of a cell.
unfoldable pub build_neighbor_telemetry : Route → ℕ → LteNeighborCell → Option MavFrame
unfolding neighbor_subcommand build_command_long int_as_f32
build_neighbor_telemetry route slot n = elim (neighbor_subcommand slot) [
  | none ↦ none
  | some s ↦ some (neighbor_frame route n s)
]

-- `neighbor_list.sort_by_key(|n| n.pcid)`, which keeps the order of equal keys.
unfoldable pub insert_by_pcid : LteNeighborCell → List LteNeighborCell → List LteNeighborCell
insert_by_pcid n [] = n ∷ []
insert_by_pcid n (m ∷ ms) =
    let later = insert_by_pcid n ms in if int_leb n.pcid m.pcid then n ∷ m ∷ ms else m ∷ later

unfoldable pub sort_by_pcid : List LteNeighborCell → List LteNeighborCell
unfolding insert_by_pcid
sort_by_pcid [] = []
sort_by_pcid (n ∷ ns) = insert_by_pcid n (sort_by_pcid ns)

-- `gcs_sysid` and the like are from the configuration; a message is what builds it for a receiver.
abbrev pub Message : Type 0
Message = ℕ → ℕ → Option MavFrame

abbrev route_to : ℕ → ℕ → ℕ → ℕ → Route
route_to self_sysid self_compid target_system target_component = record {
  self_sysid = self_sysid;
  self_compid = self_compid;
  target_system = target_system;
  target_component = target_component;
}

-- `iter().take(10).enumerate()`, from a slot on.
unfoldable pub neighbor_messages : ℕ → ℕ → ℕ → List LteNeighborCell → List Message
unfolding build_neighbor_telemetry
neighbor_messages sysid compid slot [] = []
neighbor_messages sysid compid slot (n ∷ ns) =
    (λ sys comp. build_neighbor_telemetry (route_to sysid compid sys comp) slot n)
    ∷ neighbor_messages sysid compid (suc slot) ns

-- The messages of a tick in their order.
unfoldable pub tick_messages : ℕ → ℕ → PingTelemetry → LteReading → List Message
unfolding build_lte_radio_telemetry build_lte_ip_telemetry neighbor_messages sort_by_pcid
tick_messages sysid compid ping lte =
    (λ sys comp. some (build_lte_radio_telemetry (route_to sysid compid sys comp) lte))
    ∷ (λ sys comp. some (build_lte_ip_telemetry (route_to sysid compid sys comp) ping lte))
    ∷ neighbor_messages sysid compid 0 (take 10 (sort_by_pcid (cells lte.neighbors)))

abbrev pub unwrap_or : {A : Type 0} → A → Option A → A
unwrap_or default none = default
unwrap_or default (some a) = a

-- What other tasks do around the sends of a tick, by the number of the message.
abbrev pub Interference : Type 0
Interference = ℕ → List (Other MavFrame) × List (Other MavFrame)

abbrev if_sent :
    Option (Bool × Link MavFrame)
    → (Link MavFrame → Option (Bool × Link MavFrame))
    → Option (Bool × Link MavFrame)
if_sent none next = none
if_sent (some (true, link)) next = next link
if_sent (some (false, link)) next = some (false, link)

-- `if !self.send_to_both(..).await { return; }` for each message, from number `k` on; `false` is the
-- return and `none` a panic.
unfoldable pub send_messages :
    MavlinkConfig → Interference → ℕ → List Message → Link MavFrame → Option (Bool × Link MavFrame)
unfolding send_to_both
send_messages config between k [] link = some (true, link)
send_messages config between k (message ∷ rest) link =
    if_sent (send_to_both message config.gcs_sysid config.bs_sysid (between k) link)
      (λ link'. send_messages config between (suc k) rest link')

-- A tick of `run_loop`, for the system id and the readings that the context has.
unfoldable pub report_tick :
    MavlinkConfig
    → Interference
    → Option ℕ
    → Option PingTelemetry
    → Option LteReading
    → Link MavFrame
    → Option (Bool × Link MavFrame)
unfolding send_messages tick_messages
report_tick config between none ping lte link = some (true, link)
report_tick config between (some self_sysid) ping lte link =
    send_messages config between 0
      (tick_messages self_sysid config.self_compid (unwrap_or default_ping ping)
        (unwrap_or default_reading lte))
      link
