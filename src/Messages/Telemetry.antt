-- ===== src/Messages/Telemetry.antt =====
-- messages/telemetry.rs and messages/status.rs: the telemetry of the sensors and the node's status,
-- with the reading of the LTE sensor of sensors/lte.rs. An instant is counted as in Messages.antt.
use uswarm_unitctl.Base.{ℕ, Bool, false, Option, List, [], map, Text, ℤ, pos}
use uswarm_unitctl.Float.{F64, scaled_up}

pub record LteSignalQuality : Type 0 where
  pub rsrq : ℤ
  pub rsrp : ℤ
  pub rssi : ℤ
  pub rssnr : ℤ
  pub earfcn : ℤ
  pub tx_power : ℤ
  pub pcid : ℤ

pub record LteNeighborCell : Type 0 where
  pub pcid : ℤ
  pub rsrp : ℤ
  pub rsrq : ℤ
  pub rssi : ℤ
  pub rssnr : ℤ
  pub earfcn : ℤ
  pub last_seen : ℕ

-- `LteReading` of sensors/lte.rs. Its map of neighbours is a list of keys with their cells, in the
-- order in which the map is iterated.
pub record LteReading : Type 0 where
  pub imsi : Text
  pub signal : LteSignalQuality
  pub neighbors : List (ℤ × LteNeighborCell)

-- `LteSignalQuality::default()` and `LteReading::default()`
abbrev pub default_signal : LteSignalQuality
default_signal = record {
  rsrq = pos 0;
  rsrp = pos 0;
  rssi = pos 0;
  rssnr = pos 0;
  earfcn = pos 0;
  tx_power = pos 0;
  pcid = pos 0;
}

abbrev pub default_reading : LteReading
default_reading = record { imsi = []; signal = default_signal; neighbors = [] }

pub record PingTelemetry : Type 0 where
  pub reachable : Bool
  pub latency_ms : F64
  pub loss_percent : ℕ

-- `PingTelemetry::default()`
abbrev pub default_ping : PingTelemetry
default_ping = record { reachable = false; latency_ms = scaled_up false 0 0; loss_percent = 100 }

pub record LteTelemetry : Type 0 where
  pub imsi : Text
  pub signal : LteSignalQuality
  pub neighbors : List LteNeighborCell

abbrev pub cells : List (ℤ × LteNeighborCell) → List LteNeighborCell
cells = map (λ entry. entry.1)

-- `LteTelemetry::from`
unfoldable pub lte_telemetry : LteReading → LteTelemetry
lte_telemetry value = record {
  imsi = value.imsi;
  signal = value.signal;
  neighbors = cells value.neighbors;
}

pub record RamUsage : Type 0 where
  pub total_bytes : ℕ
  pub used_bytes : ℕ
  pub available_bytes : ℕ

pub record DiskUsage : Type 0 where
  pub mount_point : Text
  pub total_bytes : ℕ
  pub available_bytes : ℕ

pub record LoadAverage : Type 0 where
  pub one : F64
  pub five : F64
  pub fifteen : F64

pub record NetworkInterfaceTelemetry : Type 0 where
  pub name : Text
  pub ipv4 : List Text
  pub rx_bps : ℕ
  pub tx_bps : ℕ

pub record CameraFormat : Type 0 where
  pub fourcc : Text
  pub width : ℕ
  pub height : ℕ

pub record CameraInfo : Type 0 where
  pub device : Text
  pub name : Option Text
  pub driver : Option Text
  pub formats : List CameraFormat

-- `cpu_usage_percent` is an `f32`; every value of this type is one of `f64`.
pub record SystemTelemetry : Type 0 where
  pub cpu_temperature_c : Option F64
  pub cpu_usage_percent : F64
  pub ram : RamUsage
  pub disks : List DiskUsage
  pub load_avg : LoadAverage
  pub uptime_s : ℕ
  pub network_interfaces : List NetworkInterfaceTelemetry
  pub cameras : List CameraInfo

pub data TelemetryData : Type 0 where
  ping_data : PingTelemetry → TelemetryData
  lte_data : LteTelemetry → TelemetryData
  system_data : SystemTelemetry → TelemetryData

pub record TelemetryEnvelope : Type 0 where
  pub ts : ℕ
  pub content : TelemetryData

pub record OnlineStatusData : Type 0 where
  pub session : Text
  pub version : Text
  pub ip : Option Text

pub record OfflineStatusData : Type 0 where
  pub last_session : Text
  pub last_online : ℕ

pub data StatusData : Type 0 where
  online : OnlineStatusData → StatusData
  offline : OfflineStatusData → StatusData

pub record NodeStatusEnvelope : Type 0 where
  pub ts : ℕ
  pub content : StatusData
