-- ===== src/Config/Defaults.antt =====
-- config.rs: the `Default` values of the sensors' and of the MQTT configuration.
use uswarm_unitctl.Base.{◌≡◌, refl, true, false, none, codes, ok, text_eq, strip_prefix}
use uswarm_unitctl.Float.{scaled_up, is_finite, is_le_zero, is_lt_one}
use uswarm_unitctl.Config.Checks.{validate, first_error}
use uswarm_unitctl.Config.Defs.{
  SensorsConfig, PingSensorConfig, LteSensorConfig, SystemSensorConfig, MqttConfig, Config,
}
use uswarm_unitctl.Config.Sample.{sample_config}

abbrev pub default_ping_config : PingSensorConfig
default_ping_config = record { enabled = true; interval_s = none; host = codes "10.45.0.2" }

abbrev pub default_lte_config : LteSensorConfig
default_lte_config = record {
  enabled = true;
  interval_s = none;
  neighbor_expiry_s = scaled_up false 30 0;
  modem_type = codes "dbus";
}

abbrev pub default_system_config : SystemSensorConfig
default_system_config = record { enabled = true; interval_s = none }

abbrev pub default_sensors_config : SensorsConfig
default_sensors_config = record {
  default_interval_s = scaled_up false 5 0;
  ping = default_ping_config;
  lte = default_lte_config;
  system = default_system_config;
}

abbrev pub default_mqtt_config : MqttConfig
default_mqtt_config = record {
  enabled = false;
  host = codes "mqtt.example.com";
  port = 8883;
  ca_cert_path = codes "/etc/unitctl/certs/ca.pem";
  client_cert_path = codes "/etc/unitctl/certs/client.pem";
  client_key_path = codes "/etc/unitctl/certs/client.key";
  env_prefix = codes "prod";
  telemetry_interval_s = scaled_up false 5 0;
}

abbrev with_defaults : Config
with_defaults = record sample_config {
  sensors = default_sensors_config;
  mqtt = record default_mqtt_config { enabled = true };
}

-- The defaults are accepted, MQTT switched on.
defaults_accepted : validate with_defaults ≡ ok tt
unfolding validate first_error text_eq strip_prefix is_finite is_le_zero is_lt_one
defaults_accepted = refl
