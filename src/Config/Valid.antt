-- ===== src/Config/Valid.antt =====
-- What a usable configuration is, in terms of its values.
use uswarm_unitctl.Base.{
  ◌<◌, ◌≡◌, ◌≢◌, ◌⊎◌, true, false, Option, none, some, [], Text, codes, all, contains_char,
  starts_with,
}
use uswarm_unitctl.Float.{F64, is_finite, is_le_zero, is_lt_one}
use uswarm_unitctl.Config.Defs.{
  GeneralConfig, MavlinkConfig, CameraConfig, SensorsConfig, MqttConfig, Config,
}
use uswarm_unitctl.Config.Checks.{is_interface_char}

-- A text that can stand in one line of an env file.
pub record IsOneLine (s : Text) : Type 0 where
  pub no_newline : contains_char s 10 ≡ false
  pub no_return : contains_char s 13 ≡ false

-- A host or an address: no command that it is handed to takes it for an option.
pub record IsHost (s : Text) : Type 0 where
  pub given : s ≢ []
  pub no_option : starts_with s (codes "-") ≡ false

-- The three components differ, and so does the own id where it is not 0, which asks for discovery.
pub record IsMavlinkValid (m : MavlinkConfig) : Type 0 where
  pub own_sniffer : m.self_sysid ≢ 0 → m.self_sysid ≢ m.sniffer_sysid
  pub own_bs : m.self_sysid ≢ 0 → m.self_sysid ≢ m.bs_sysid
  pub own_gcs : m.self_sysid ≢ 0 → m.self_sysid ≢ m.gcs_sysid
  pub sniffer_bs : m.sniffer_sysid ≢ m.bs_sysid
  pub gcs_sniffer : m.gcs_sysid ≢ m.sniffer_sysid
  pub gcs_bs : m.gcs_sysid ≢ m.bs_sysid
  pub period : 0 < m.iteration_period_ms
  pub protocol : m.protocol ≡ codes "tcpout"
  pub env_path : m.env_path ≢ []
  pub gcs_ip : IsHost m.gcs_ip
  pub tty : m.fc.tty ≢ []
  pub baudrate : 0 < m.fc.baudrate
  pub local_port : 0 < m.local_mavlink_port
  pub remote_port : 0 < m.remote_mavlink_port

pub record IsCameraValid (c : CameraConfig) : Type 0 where
  pub env_path : c.env_path ≢ []
  pub gcs_ip : IsHost c.gcs_ip
  pub camera_type : c.camera_type ≢ []
  pub device : c.device ≢ []
  pub width : 0 < c.width
  pub height : 0 < c.height
  pub framerate : 0 < c.framerate
  pub bitrate : 0 < c.bitrate
  pub port : 0 < c.remote_video_port

pub record IsPrintable (m : MavlinkConfig) (c : CameraConfig) : Type 0 where
  pub host : IsHost m.host
  pub host_line : IsOneLine m.host
  pub gcs_ip : IsOneLine m.gcs_ip
  pub env_path : IsOneLine m.env_path
  pub tty : IsOneLine m.fc.tty
  pub camera_ip : IsOneLine c.gcs_ip
  pub camera_path : IsOneLine c.env_path
  pub camera_type : IsOneLine c.camera_type
  pub device : IsOneLine c.device

pub record IsGeneralValid (g : GeneralConfig) : Type 0 where
  pub interface : IsHost g.interface
  pub interface_chars : all is_interface_char g.interface ≡ true
  pub env_dir : g.env_dir ≢ []
  pub env_dir_line : IsOneLine g.env_dir

-- A finite and positive number of seconds.
pub record IsPositive (v : F64) : Type 0 where
  pub finite : is_finite v ≡ true
  pub positive : is_le_zero v ≡ false

abbrev pub IsOptionalPositive : Option F64 → Type 0
IsOptionalPositive none = Unit
IsOptionalPositive (some v) = IsPositive v

pub record IsSensorsValid (s : SensorsConfig) : Type 0 where
  pub default_interval : IsPositive s.default_interval_s
  pub ping_interval : IsOptionalPositive s.ping.interval_s
  pub lte_interval : IsOptionalPositive s.lte.interval_s
  pub system_interval : IsOptionalPositive s.system.interval_s
  pub expiry : IsPositive s.lte.neighbor_expiry_s
  pub modem_type : (s.lte.modem_type ≡ codes "dbus") ⊎ (s.lte.modem_type ≡ codes "fake")
  pub ping_host : IsHost s.ping.host

pub record IsMqttValid (q : MqttConfig) : Type 0 where
  pub host : q.host ≢ []
  pub port : 0 < q.port
  pub ca_cert : q.ca_cert_path ≢ []
  pub client_cert : q.client_cert_path ≢ []
  pub client_key : q.client_key_path ≢ []
  pub env_prefix : q.env_prefix ≢ []
  pub interval_finite : is_finite q.telemetry_interval_s ≡ true
  pub interval_ge_one : is_lt_one q.telemetry_interval_s ≡ false

-- What the service needs of its configuration; the broker's part only where MQTT is switched on.
pub record IsValid (c : Config) : Type 0 where
  pub mavlink : IsMavlinkValid c.mavlink
  pub camera : IsCameraValid c.camera
  pub printable : IsPrintable c.mavlink c.camera
  pub general : IsGeneralValid c.general
  pub sensors : IsSensorsValid c.sensors
  pub mqtt : c.mqtt.enabled ≡ true → IsMqttValid c.mqtt
