-- ===== src/Config/Checks.antt =====
-- `Config::validate`: its tests in their order, each with the error that it returns.
use uswarm_unitctl.Base.{
  ℕ, Bool, false, not, ◌&&◌, ◌||◌, Option, none, some, List, [], ◌∷◌, ◌++◌, Text, codes, is_empty,
  text_eq, contains_char, starts_with, all, leb, ◌==◌, if◌then◌else◌, Result, ok, err,
}
use uswarm_unitctl.Float.{F64, is_finite, is_le_zero, is_lt_one}
use uswarm_unitctl.Config.Defs.{
  GeneralConfig, MavlinkConfig, CameraConfig, SensorsConfig, MqttConfig, Config, ConfigError,
  validation, bad_protocol, has_newline, bad_modem_type,
}

-- A test with the error that is returned where it holds.
abbrev pub Check : Type 0
Check = Bool × ConfigError

-- A row of `if test { return Err(error); }`.
unfoldable pub first_error : List Check → Result (Unit {0}) ConfigError
first_error [] = ok tt
first_error ((test, error) ∷ rest) =
    let later = first_error rest in if test then err error else later

-- `VALID_PROTOCOLS.contains(p)`
abbrev pub is_valid_protocol : Text → Bool
is_valid_protocol p = text_eq p (codes "tcpout")

abbrev pub starts_with_dash : Text → Bool
starts_with_dash s = starts_with s (codes "-")

abbrev pub breaks_line : Text → Bool
breaks_line s = contains_char s 10 || contains_char s 13

abbrev pub is_interface_char : ℕ → Bool
is_interface_char c =
    (leb 48 c && leb c 57)
    || (leb 65 c && leb c 90)
    || (leb 97 c && leb c 122)
    || (c == b'.')
    || (c == b'_')
    || (c == b'-')

-- `!v.is_finite() || v <= 0.0`
abbrev pub is_bad_interval : F64 → Bool
is_bad_interval v = not (is_finite v) || is_le_zero v

abbrev pub is_bad_optional : Option F64 → Bool
is_bad_optional none = false
is_bad_optional (some v) = is_bad_interval v

abbrev pub mavlink_checks : MavlinkConfig → List Check
mavlink_checks m =
    (m.iteration_period_ms == 0, validation "mavlink.iteration_period_ms must be greater than 0")
    ∷ (not (is_valid_protocol m.protocol), bad_protocol m.protocol)
    ∷ (
      not (m.self_sysid == 0) && m.self_sysid == m.sniffer_sysid,
      validation "mavlink.self_sysid must differ from sniffer_sysid",
    )
    ∷ (
      not (m.self_sysid == 0) && m.self_sysid == m.bs_sysid,
      validation "mavlink.self_sysid must differ from bs_sysid",
    )
    ∷ (m.sniffer_sysid == m.bs_sysid, validation "mavlink.sniffer_sysid must differ from bs_sysid")
    ∷ (
      not (m.self_sysid == 0) && m.self_sysid == m.gcs_sysid,
      validation "mavlink.self_sysid must differ from gcs_sysid",
    )
    ∷ (
      m.gcs_sysid == m.sniffer_sysid,
      validation "mavlink.gcs_sysid must differ from sniffer_sysid",
    )
    ∷ (m.gcs_sysid == m.bs_sysid, validation "mavlink.gcs_sysid must differ from bs_sysid")
    ∷ (is_empty m.env_path, validation "mavlink.env_path must not be empty")
    ∷ (
      is_empty m.gcs_ip || starts_with_dash m.gcs_ip,
      validation "mavlink.gcs_ip must be a non-empty value that does not start with '-'",
    )
    ∷ (is_empty m.fc.tty, validation "mavlink.fc.tty must not be empty")
    ∷ (m.fc.baudrate == 0, validation "mavlink.fc.baudrate must be greater than 0")
    ∷ (m.local_mavlink_port == 0, validation "mavlink.local_mavlink_port must be greater than 0")
    ∷ (m.remote_mavlink_port == 0, validation "mavlink.remote_mavlink_port must be greater than 0")
    ∷ []

abbrev pub camera_checks : CameraConfig → List Check
camera_checks c =
    (is_empty c.env_path, validation "camera.env_path must not be empty")
    ∷ (
      is_empty c.gcs_ip || starts_with_dash c.gcs_ip,
      validation "camera.gcs_ip must be a non-empty value that does not start with '-'",
    )
    ∷ (is_empty c.camera_type, validation "camera.camera_type must not be empty")
    ∷ (is_empty c.device, validation "camera.device must not be empty")
    ∷ (c.width == 0, validation "camera.width must be greater than 0")
    ∷ (c.height == 0, validation "camera.height must be greater than 0")
    ∷ (c.framerate == 0, validation "camera.framerate must be greater than 0")
    ∷ (c.bitrate == 0, validation "camera.bitrate must be greater than 0")
    ∷ (c.remote_video_port == 0, validation "camera.remote_video_port must be greater than 0")
    ∷ []

-- The host, then the loop over the named text fields.
abbrev pub text_checks : MavlinkConfig → CameraConfig → List Check
text_checks m c =
    (
      is_empty m.host || starts_with_dash m.host,
      validation "mavlink.host must be a non-empty value that does not start with '-'",
    )
    ∷ (breaks_line m.host, has_newline "mavlink.host")
    ∷ (breaks_line m.gcs_ip, has_newline "mavlink.gcs_ip")
    ∷ (breaks_line m.env_path, has_newline "mavlink.env_path")
    ∷ (breaks_line m.fc.tty, has_newline "mavlink.fc.tty")
    ∷ (breaks_line c.gcs_ip, has_newline "camera.gcs_ip")
    ∷ (breaks_line c.env_path, has_newline "camera.env_path")
    ∷ (breaks_line c.camera_type, has_newline "camera.camera_type")
    ∷ (breaks_line c.device, has_newline "camera.device")
    ∷ []

abbrev pub general_checks : GeneralConfig → List Check
general_checks g =
    (is_empty g.interface, validation "general.interface must not be empty")
    ∷ (starts_with_dash g.interface, validation "general.interface must not start with '-'")
    ∷ (
      not (all is_interface_char g.interface),
      validation "general.interface must contain only alphanumeric, '.', '_', or '-' characters",
    )
    ∷ (is_empty g.env_dir, validation "general.env_dir must not be empty")
    ∷ (breaks_line g.env_dir, validation "general.env_dir must not contain newline characters")
    ∷ []

abbrev pub sensor_checks : SensorsConfig → List Check
sensor_checks s =
    (
      is_bad_interval s.default_interval_s,
      validation "sensors.default_interval_s must be a finite positive number",
    )
    ∷ (
      is_bad_optional s.ping.interval_s,
      validation "sensors.ping.interval_s must be a finite positive number",
    )
    ∷ (
      is_bad_optional s.lte.interval_s,
      validation "sensors.lte.interval_s must be a finite positive number",
    )
    ∷ (
      is_bad_optional s.system.interval_s,
      validation "sensors.system.interval_s must be a finite positive number",
    )
    ∷ (
      is_bad_interval s.lte.neighbor_expiry_s,
      validation "sensors.lte.neighbor_expiry_s must be a finite positive number",
    )
    ∷ (
      not (text_eq s.lte.modem_type (codes "dbus") || text_eq s.lte.modem_type (codes "fake")),
      bad_modem_type s.lte.modem_type,
    )
    ∷ (
      is_empty s.ping.host || starts_with_dash s.ping.host,
      validation "sensors.ping.host must be a valid hostname or IP address",
    )
    ∷ []

abbrev pub mqtt_checks : MqttConfig → List Check
mqtt_checks q =
    (is_empty q.host, validation "mqtt.host must not be empty when MQTT is enabled")
    ∷ (q.port == 0, validation "mqtt.port must be greater than 0")
    ∷ (
      is_empty q.ca_cert_path,
      validation "mqtt.ca_cert_path must not be empty when MQTT is enabled",
    )
    ∷ (
      is_empty q.client_cert_path,
      validation "mqtt.client_cert_path must not be empty when MQTT is enabled",
    )
    ∷ (
      is_empty q.client_key_path,
      validation "mqtt.client_key_path must not be empty when MQTT is enabled",
    )
    ∷ (is_empty q.env_prefix, validation "mqtt.env_prefix must not be empty when MQTT is enabled")
    ∷ (
      not (is_finite q.telemetry_interval_s) || is_lt_one q.telemetry_interval_s,
      validation "mqtt.telemetry_interval_s must be a finite number >= 1.0",
    )
    ∷ []

-- `if self.mqtt.enabled { ... }`
abbrev pub enabled_mqtt_checks : Config → List Check
enabled_mqtt_checks c = if c.mqtt.enabled then mqtt_checks c.mqtt else []

-- The tests from one group on, in the order of the source.
abbrev pub checks_from_sensors : Config → List Check
checks_from_sensors c = sensor_checks c.sensors ++ enabled_mqtt_checks c

abbrev pub checks_from_general : Config → List Check
checks_from_general c = general_checks c.general ++ checks_from_sensors c

abbrev pub checks_from_text : Config → List Check
checks_from_text c = text_checks c.mavlink c.camera ++ checks_from_general c

abbrev pub checks_from_camera : Config → List Check
checks_from_camera c = camera_checks c.camera ++ checks_from_text c

abbrev pub all_checks : Config → List Check
all_checks c = mavlink_checks c.mavlink ++ checks_from_camera c

-- `Config::validate`
unfoldable pub validate : Config → Result (Unit {0}) ConfigError
validate c = first_error (all_checks c)
