-- ===== src/Messages.antt =====
-- messages/commands.rs: the envelopes, states and results of commands, and the redacted view of the
-- configuration. `V` is the type of JSON values of serde_json, which the program does not implement.
-- `RestartPayload` and `RestartResult` are their one field, the target.
-- An instant is a number of nanoseconds since the first one that chrono's `DateTime<Utc>` holds.
pub mod Expiry
pub mod Telemetry
mod Tests
use uswarm_unitctl.Base.{
  ℕ, ◌+◌, ◌*◌, ◌^◌, Bool, true, false, Option, none, some, List, Text, codes, ltb, min,
  if◌then◌else◌,
}
use uswarm_unitctl.Float.{F64, nanos_per_sec}
use uswarm_unitctl.Config.{
  Config, GeneralConfig, MavlinkConfig, SensorsConfig, CameraConfig, MqttConfig,
}

pub record SafeMqttConfig : Type 0 where
  pub enabled : Bool
  pub host : Text
  pub port : ℕ
  pub ca_cert_path : Text
  pub client_cert_path : Text
  pub client_key_path : Text
  pub env_prefix : Text
  pub telemetry_interval_s : F64

pub record SafeConfig : Type 0 where
  pub general : GeneralConfig
  pub mavlink : MavlinkConfig
  pub sensors : SensorsConfig
  pub camera : CameraConfig
  pub mqtt : SafeMqttConfig

-- `SafeMqttConfig::from`
unfoldable pub safe_mqtt : MqttConfig → SafeMqttConfig
safe_mqtt mqtt = record {
  enabled = mqtt.enabled;
  host = mqtt.host;
  port = mqtt.port;
  ca_cert_path = codes "***";
  client_cert_path = codes "***";
  client_key_path = codes "***";
  env_prefix = mqtt.env_prefix;
  telemetry_interval_s = mqtt.telemetry_interval_s;
}

-- `SafeConfig::from`
unfoldable pub safe_config : Config → SafeConfig
unfolding safe_mqtt
safe_config config = record {
  general = config.general;
  mavlink = config.mavlink;
  sensors = config.sensors;
  camera = config.camera;
  mqtt = safe_mqtt config.mqtt;
}

pub data RestartTarget : Type 0 where
  camera mavlink modem unitctl reboot : RestartTarget

pub record UpdateRequestPayload : Type 0 where
  pub version : Text
  pub url : Text

pub record ModemCommandPayload : Type 0 where
  pub command : Text
  pub timeout_ms : Option ℕ

pub data CommandPayload (V : Type 0) : Type 0 where
  get_config : CommandPayload V
  config_update : V → CommandPayload V
  modem_commands : ModemCommandPayload → CommandPayload V
  update_request : UpdateRequestPayload → CommandPayload V
  restart : RestartTarget → CommandPayload V

pub record CommandEnvelope (V : Type 0) : Type 0 where
  pub uuid : Text
  pub issued_at : ℕ
  pub ttl_sec : ℕ
  pub payload : CommandPayload V

pub data CommandState : Type 0 where
  accepted in_progress completed failed rejected expired superseded : CommandState

pub record CommandStatus : Type 0 where
  pub uuid : Text
  pub state : CommandState
  pub ts : ℕ

pub record ConfigUpdateResult : Type 0 where
  pub message : Text
  pub fields_received : List Text

pub record ModemCommandResult : Type 0 where
  pub command : Text
  pub response : Text

pub record UpdateRequestResult : Type 0 where
  pub message : Text
  pub version : Text

pub data CommandResultData : Type 0 where
  config_result : SafeConfig → CommandResultData
  config_update_result : ConfigUpdateResult → CommandResultData
  modem_result : ModemCommandResult → CommandResultData
  update_result : UpdateRequestResult → CommandResultData
  restart_result : RestartTarget → CommandResultData

pub record CommandResultMsg : Type 0 where
  pub uuid : Text
  pub succeeded : Bool
  pub ts : ℕ
  pub error : Option Text
  pub content : Option CommandResultData

abbrev pub max_ttl_sec : ℕ
max_ttl_sec = 315360000

-- `i64::try_from(self.ttl_sec).unwrap_or(MAX_TTL_SEC).min(MAX_TTL_SEC)`
unfoldable pub capped_ttl : ℕ → ℕ
capped_ttl ttl_sec = min (if ltb ttl_sec (2 ^ 63) then ttl_sec else max_ttl_sec) max_ttl_sec

-- `CommandEnvelope::is_expired_at`. `last_instant` is the last instant of chrono; the addition of a
-- duration panics where it would pass it, which is `none`.
unfoldable pub is_expired_at : {V : Type 0} → ℕ → CommandEnvelope V → ℕ → Option Bool
unfolding capped_ttl
is_expired_at last_instant e now =
    let expiry = e.issued_at + capped_ttl e.ttl_sec * nanos_per_sec in
    if ltb last_instant expiry then none else some (ltb expiry now)
