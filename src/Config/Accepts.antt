-- ===== src/Config/Accepts.antt =====
-- `Config::validate` accepts exactly the usable configurations.
use uswarm_unitctl.Base.{
  ◌≡◌, ◌↔◌, refl, true, false, List, [], ◌∷◌, ◌++◌, codes, All, text_eq_iff, ok, arith, Bool-cases,
  inl, inr,
}
use uswarm_unitctl.Config.Defs.{
  Config, GeneralConfig, MavlinkConfig, CameraConfig, SensorsConfig, MqttConfig,
}
use uswarm_unitctl.Config.Valid.{
  IsValid, IsMavlinkValid, IsCameraValid, IsPrintable, IsGeneralValid, IsSensorsValid, IsMqttValid,
}
use uswarm_unitctl.Config.Checks.{
  Check, first_error, validate, mavlink_checks, camera_checks, text_checks, general_checks,
  sensor_checks, mqtt_checks, enabled_mqtt_checks, checks_from_sensors, checks_from_general,
  checks_from_text, checks_from_camera,
}

-- No test of an accepted row holds.
passes : (cs : List Check) → first_error cs ≡ ok tt → All (λ c. c.0 ≡ false) cs
unfolding first_error
passes [] h = tt
passes ((test, error) ∷ cs) h = ground (arith, passes cs)

unbroken : (cs : List Check) → All (λ c. c.0 ≡ false) cs → first_error cs ≡ ok tt
unfolding first_error
unbroken [] h = refl
unbroken ((test, error) ∷ cs) h = ground (arith, unbroken cs)

first_error-append :
    (xs ys : List Check)
    → first_error (xs ++ ys) ≡ ok tt
    → (first_error xs ≡ ok tt) × (first_error ys ≡ ok tt)
unfolding first_error
first_error-append [] ys h = (refl, h)
first_error-append ((test, error) ∷ xs) ys h = ground (arith, first_error-append xs ys)

join :
    (xs ys : List Check)
    → first_error xs ≡ ok tt
    → first_error ys ≡ ok tt
    → first_error (xs ++ ys) ≡ ok tt
unfolding first_error
join [] ys h k = k
join ((test, error) ∷ xs) ys h k = ground (arith, join xs ys)

-- The groups of tests of an accepted configuration, each accepted.
record Groups (c : Config) : Type 0 where
  mavlink : first_error (mavlink_checks c.mavlink) ≡ ok tt
  camera : first_error (camera_checks c.camera) ≡ ok tt
  text : first_error (text_checks c.mavlink c.camera) ≡ ok tt
  general : first_error (general_checks c.general) ≡ ok tt
  sensors : first_error (sensor_checks c.sensors) ≡ ok tt
  mqtt : first_error (enabled_mqtt_checks c) ≡ ok tt

validate-Groups : (c : Config) → validate c ≡ ok tt → Groups c
unfolding validate
validate-Groups c valid =
    let (m, from_camera) =
      first_error-append (mavlink_checks c.mavlink) (checks_from_camera c) valid in
    let (k, from_text) =
      first_error-append (camera_checks c.camera) (checks_from_text c) from_camera in
    let (t, from_general) =
      first_error-append (text_checks c.mavlink c.camera) (checks_from_general c) from_text in
    let (g, from_sensors) =
      first_error-append (general_checks c.general) (checks_from_sensors c) from_general in
    let (s, q) =
      first_error-append (sensor_checks c.sensors) (enabled_mqtt_checks c) from_sensors in
    record { mavlink = m; camera = k; text = t; general = g; sensors = s; mqtt = q }

Groups-validate : (c : Config) → Groups c → validate c ≡ ok tt
unfolding validate
Groups-validate c g = join (mavlink_checks c.mavlink) (checks_from_camera c) g.mavlink (
    join (camera_checks c.camera) (checks_from_text c) g.camera (
      join (text_checks c.mavlink c.camera) (checks_from_general c) g.text (
        join (general_checks c.general) (checks_from_sensors c) g.general
          (join (sensor_checks c.sensors) (enabled_mqtt_checks c) g.sensors g.mqtt))))

mavlink_iff : (m : MavlinkConfig) → (first_error (mavlink_checks m) ≡ ok tt) ↔ IsMavlinkValid m
mavlink_iff m = (
  λ h. ground (arith, passes (mavlink_checks m) h, text_eq_iff m.protocol (codes "tcpout")),
  λ v. unbroken (mavlink_checks m) (ground (arith, text_eq_iff m.protocol (codes "tcpout"))),
)

camera_iff : (c : CameraConfig) → (first_error (camera_checks c) ≡ ok tt) ↔ IsCameraValid c
camera_iff c = (
  λ h. ground (arith, passes (camera_checks c) h),
  λ v. unbroken (camera_checks c) (ground arith),
)

IsPrintable-iff :
    (m : MavlinkConfig) (c : CameraConfig)
    → (first_error (text_checks m c) ≡ ok tt) ↔ IsPrintable m c
IsPrintable-iff m c = (
  λ h. ground (arith, passes (text_checks m c) h),
  λ v. unbroken (text_checks m c) (ground arith),
)

general_iff : (g : GeneralConfig) → (first_error (general_checks g) ≡ ok tt) ↔ IsGeneralValid g
general_iff g = (
  λ h. ground (arith, passes (general_checks g) h),
  λ v. unbroken (general_checks g) (ground arith),
)

sensors_iff : (s : SensorsConfig) → (first_error (sensor_checks s) ≡ ok tt) ↔ IsSensorsValid s
sensors_iff s = (
  λ h. ground (
    arith,
    passes (sensor_checks s) h,
    text_eq_iff s.lte.modem_type (codes "dbus"),
    text_eq_iff s.lte.modem_type (codes "fake"),
  ),
  λ v. unbroken (sensor_checks s) (
      ground (
        arith,
        text_eq_iff s.lte.modem_type (codes "dbus"),
        text_eq_iff s.lte.modem_type (codes "fake"),
      )),
)

mqtt_iff : (q : MqttConfig) → (first_error (mqtt_checks q) ≡ ok tt) ↔ IsMqttValid q
mqtt_iff q =
    (λ h. ground (arith, passes (mqtt_checks q) h), λ v. unbroken (mqtt_checks q) (ground arith))

enabled_iff :
    (c : Config)
    → (first_error (enabled_mqtt_checks c) ≡ ok tt) ↔ (c.mqtt.enabled ≡ true → IsMqttValid c.mqtt)
unfolding first_error
enabled_iff c = elim (Bool-cases c.mqtt.enabled) [
  | inl on ↦ (λ h e. (mqtt_iff c.mqtt).0 (rw on at h), λ v. rw on ((mqtt_iff c.mqtt).1 (v on)))
  | inr off ↦ (λ h e. cc, λ v. rw off)
]

-- `validate` returns no error exactly on the configurations that are valid as `IsValid` says.
pub validate_iff : (c : Config) → (validate c ≡ ok tt) ↔ IsValid c
validate_iff c = (
  λ h.
      let g = validate-Groups c h in
      record {
        mavlink = (mavlink_iff c.mavlink).0 g.mavlink;
        camera = (camera_iff c.camera).0 g.camera;
        printable = (IsPrintable-iff c.mavlink c.camera).0 g.text;
        general = (general_iff c.general).0 g.general;
        sensors = (sensors_iff c.sensors).0 g.sensors;
        mqtt = (enabled_iff c).0 g.mqtt;
      },
  λ v. Groups-validate c (record {
    mavlink = (mavlink_iff c.mavlink).1 v.mavlink;
    camera = (camera_iff c.camera).1 v.camera;
    text = (IsPrintable-iff c.mavlink c.camera).1 v.printable;
    general = (general_iff c.general).1 v.general;
    sensors = (sensors_iff c.sensors).1 v.sensors;
    mqtt = (enabled_iff c).1 v.mqtt;
  }),
)
