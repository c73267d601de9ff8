-- ===== src/Config/Sample.antt =====
-- A configuration with the values of the documentation's example, MQTT switched on.
use uswarm_unitctl.Base.{◌≡◌, refl, true, false, none, some, codes, ok, text_eq, strip_prefix}
use uswarm_unitctl.Float.{scaled_up, scaled_down, is_finite, is_le_zero, is_lt_one}
use uswarm_unitctl.Config.Checks.{validate, first_error}
use uswarm_unitctl.Config.Defs.{
  GeneralConfig, MavlinkConfig, CameraConfig, SensorsConfig, MqttConfig, Config,
}

abbrev pub sample_general : GeneralConfig
sample_general = record { debug = false; interface = codes "eth0"; env_dir = codes "/etc" }

abbrev pub sample_mavlink : MavlinkConfig
sample_mavlink = record {
  protocol = codes "tcpout";
  host = codes "127.0.0.1";
  local_mavlink_port = 5760;
  remote_mavlink_port = 5760;
  self_sysid = 1;
  self_compid = 10;
  gcs_sysid = 255;
  gcs_compid = 190;
  sniffer_sysid = 199;
  bs_sysid = 200;
  iteration_period_ms = 10;
  gcs_ip = codes "10.101.0.1";
  env_path = codes "/etc/m.env";
  fc = record { tty = codes "/dev/ttyFC"; baudrate = 57600 };
}

abbrev pub sample_camera : CameraConfig
sample_camera = record {
  gcs_ip = codes "10.101.0.1";
  env_path = codes "/etc/c.env";
  remote_video_port = 5600;
  width = 640;
  height = 360;
  framerate = 60;
  bitrate = 1664000;
  flip = 0;
  camera_type = codes "rpi";
  device = codes "/dev/video1";
}

-- Ping has no interval of its own, the modem's is 2.5 seconds.
abbrev pub sample_sensors : SensorsConfig
sample_sensors = record {
  default_interval_s = scaled_up false 1 0;
  ping = record { enabled = true; interval_s = none; host = codes "10.45.0.2" };
  lte = record {
    enabled = true;
    interval_s = some (scaled_down false 5 1);
    neighbor_expiry_s = scaled_up false 30 0;
    modem_type = codes "dbus";
  };
  system = record { enabled = false; interval_s = none };
}

abbrev pub sample_mqtt : MqttConfig
sample_mqtt = record {
  enabled = true;
  host = codes "mqtt.lan";
  port = 8883;
  ca_cert_path = codes "/ca.pem";
  client_cert_path = codes "/c.pem";
  client_key_path = codes "/k.pem";
  env_prefix = codes "prod";
  telemetry_interval_s = scaled_up false 1 0;
}

abbrev pub sample_config : Config
sample_config = record {
  general = sample_general;
  mavlink = sample_mavlink;
  sensors = sample_sensors;
  camera = sample_camera;
  mqtt = sample_mqtt;
}

-- The same with a default interval of 2^70 seconds.
abbrev pub endless_config : Config
endless_config = record sample_config {
  sensors = record sample_sensors { default_interval_s = scaled_up false 1 70 };
}

pub sample_accepted : validate sample_config ≡ ok tt
unfolding validate first_error text_eq strip_prefix is_finite is_le_zero is_lt_one
sample_accepted = refl

pub endless_accepted : validate endless_config ≡ ok tt
unfolding validate first_error text_eq strip_prefix is_finite is_le_zero is_lt_one
endless_accepted = refl
