-- ===== src/Config/Defs.antt =====
-- The types of config.rs.
use uswarm_unitctl.Base.{ℕ, Bool, Option, Text, ◌++◌, codes, decimal, String}
use uswarm_unitctl.Float.{F64}

pub record GeneralConfig : Type 0 where
  pub debug : Bool
  pub interface : Text
  pub env_dir : Text

pub record FcConfig : Type 0 where
  pub tty : Text
  pub baudrate : ℕ

pub record MavlinkConfig : Type 0 where
  pub protocol : Text
  pub host : Text
  pub local_mavlink_port : ℕ
  pub remote_mavlink_port : ℕ
  pub self_sysid : ℕ
  pub self_compid : ℕ
  pub gcs_sysid : ℕ
  pub gcs_compid : ℕ
  pub sniffer_sysid : ℕ
  pub bs_sysid : ℕ
  pub iteration_period_ms : ℕ
  pub gcs_ip : Text
  pub env_path : Text
  pub fc : FcConfig

pub record CameraConfig : Type 0 where
  pub gcs_ip : Text
  pub env_path : Text
  pub remote_video_port : ℕ
  pub width : ℕ
  pub height : ℕ
  pub framerate : ℕ
  pub bitrate : ℕ
  pub flip : ℕ
  pub camera_type : Text
  pub device : Text

pub record PingSensorConfig : Type 0 where
  pub enabled : Bool
  pub interval_s : Option F64
  pub host : Text

pub record LteSensorConfig : Type 0 where
  pub enabled : Bool
  pub interval_s : Option F64
  pub neighbor_expiry_s : F64
  pub modem_type : Text

pub record SystemSensorConfig : Type 0 where
  pub enabled : Bool
  pub interval_s : Option F64

pub record SensorsConfig : Type 0 where
  pub default_interval_s : F64
  pub ping : PingSensorConfig
  pub lte : LteSensorConfig
  pub system : SystemSensorConfig

pub record MqttConfig : Type 0 where
  pub enabled : Bool
  pub host : Text
  pub port : ℕ
  pub ca_cert_path : Text
  pub client_cert_path : Text
  pub client_key_path : Text
  pub env_prefix : Text
  pub telemetry_interval_s : F64

pub record Config : Type 0 where
  pub general : GeneralConfig
  pub mavlink : MavlinkConfig
  pub sensors : SensorsConfig
  pub camera : CameraConfig
  pub mqtt : MqttConfig

-- `ConfigError::Validation`: a fixed message, or a message formatted from the value it names.
pub data ConfigError : Type 0 where
  validation : String → ConfigError
  bad_protocol : Text → ConfigError
  has_newline : String → ConfigError
  bad_modem_type : Text → ConfigError

-- `MavlinkConfig::connection_string`
unfoldable pub connection_string : MavlinkConfig → Text
connection_string m =
    m.protocol ++ (codes ":" ++ (m.host ++ (codes ":" ++ decimal m.local_mavlink_port)))
