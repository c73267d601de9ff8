-- ===== src/Sensors/System.antt =====
-- sensors/system.rs: the sample of the host that `SystemSensor` takes on each tick. What sysinfo, the
-- file of the thermal zone, glob and the cameras answer on a tick is a record.
pub mod Rates
mod Tests
use mathlib.Core.Option
use uswarm_unitctl.Base.{
  ℕ, ◌+◌, ◌-◌, ◌*◌, ◌/◌, ◌%◌, ◌^◌, min, Bool, true, false, ◌||◌, Option, none, some, List, [], ◌∷◌,
  ◌++◌, Text, codes, is_empty, text_eq, trim, ltb, ◌==◌, if◌then◌else◌, ℤ, pos, negsuc, parse_i64,
  Result, ok, err,
}
use uswarm_unitctl.Float.{F64, u64_as_f64, nanos_per_sec}
use uswarm_unitctl.Float.Ratio.{nearest, nearest_f64, times, round}
use uswarm_unitctl.Net.{InterfaceAddress, ipv4_map_for_all_interfaces}
use uswarm_unitctl.Messages.Telemetry.{
  CameraFormat, SystemTelemetry, RamUsage, DiskUsage, LoadAverage, NetworkInterfaceTelemetry,
  CameraInfo,
}

-- `elapsed.as_secs_f64()`, for a time in nanoseconds.
unfoldable pub as_secs_f64 : ℕ → ℕ × ℕ
unfolding nearest u64_as_f64
as_secs_f64 nanos =
    let (n, d) = nearest (nanos % nanos_per_sec) nanos_per_sec in
    nearest (u64_as_f64 (nanos / nanos_per_sec) * d + n) d

abbrev divided : ℕ → ℕ × ℕ → ℕ × ℕ
divided bits (n, d) = nearest (bits * d) n

-- `(delta_bytes as f64 * 8.0 / elapsed_s).round() as u64`, with the saturation of the cast.
unfoldable pub rate : ℕ → ℕ × ℕ → ℕ
unfolding nearest round u64_as_f64
rate delta_bytes elapsed_s =
    if elapsed_s.0 == 0
    then 0
    else min (round (divided (u64_as_f64 delta_bytes * 8) elapsed_s)) (2 ^ 64 - 1)

-- `compute_bps`, with the elapsed time in nanoseconds.
unfoldable pub compute_bps : Option ℕ → ℕ → ℕ → ℕ
unfolding rate as_secs_f64
compute_bps none curr_bytes elapsed = 0
compute_bps (some prev) curr_bytes elapsed =
    if ltb curr_bytes prev then 0 else rate (curr_bytes - prev) (as_secs_f64 elapsed)

unfoldable pub is_loopback : Text → Bool
is_loopback name = text_eq name (codes "lo")

-- The texts of the errors of files and of the number's parser are not kept.
pub data TempReadError : Type 0 where
  io_error : TempReadError
  empty_file : TempReadError
  invalid_integer : TempReadError

abbrev millidegrees : Option ℤ → Result F64 TempReadError
millidegrees none = err invalid_integer
millidegrees (some (pos m)) = ok (nearest_f64 false (u64_as_f64 m) 1000)
millidegrees (some (negsuc m)) = ok (nearest_f64 true (u64_as_f64 (m + 1)) 1000)

unfoldable pub parse_temperature : Text → Result F64 TempReadError
unfolding nearest_f64 u64_as_f64
parse_temperature content =
    if is_empty (trim content) then err empty_file else millidegrees (parse_i64 (trim content))

-- `read_temperature`, on the content of the file if it can be read.
unfoldable pub read_temperature : Option Text → Result F64 TempReadError
unfolding parse_temperature
read_temperature none = err io_error
read_temperature (some content) = parse_temperature content

-- An interface with the bytes that it has received and transmitted.
abbrev pub NetBytes : Type 0
NetBytes = List (Text × (ℕ × ℕ))

unfoldable pub find_entry : {A : Type 0} → Text → List (Text × A) → Option A
find_entry name [] = none
find_entry name ((key, a) ∷ rest) =
    let later = find_entry name rest in if text_eq key name then some a else later

abbrev list_or_empty : Option (List Text) → List Text
list_or_empty none = []
list_or_empty (some ips) = ips

-- The loop over the interfaces of a tick.
unfoldable pub sample_interfaces :
    NetBytes → List (Text × List Text) → ℕ → NetBytes → List NetworkInterfaceTelemetry
unfolding compute_bps is_loopback find_entry
sample_interfaces prev ipv4_by_iface elapsed [] = []
sample_interfaces prev ipv4_by_iface elapsed ((name, (rx, tx)) ∷ rest) =
    let later = sample_interfaces prev ipv4_by_iface elapsed rest in
    let before = find_entry name prev in
    if is_loopback name
    then later
    else record {
      name = name;
      ipv4 = list_or_empty (find_entry name ipv4_by_iface);
      rx_bps = compute_bps (Option.map (λ b. b.0) before) rx elapsed;
      tx_bps = compute_bps (Option.map (λ b. b.1) before) tx elapsed;
    }
      ∷ later

-- What v4l answers for a device: its card and driver, and of each format the code, as the source prints
-- it, and the sizes, where these can be listed. A size that is not discrete is `none`.
pub record CameraDevice : Type 0 where
  pub card : Text
  pub driver : Text
  pub formats : List (Text × Option (List (Option (ℕ × ℕ))))

abbrev sizes : Text → List (Option (ℕ × ℕ)) → List CameraFormat
sizes fourcc [] = []
sizes fourcc (none ∷ rest) = sizes fourcc rest
sizes fourcc (some (width, height) ∷ rest) =
    record { fourcc = fourcc; width = width; height = height } ∷ sizes fourcc rest

abbrev listed : Text → Option (List (Option (ℕ × ℕ))) → List CameraFormat
listed fourcc none = []
listed fourcc (some framesizes) = sizes fourcc framesizes

unfoldable pub camera_formats : List (Text × Option (List (Option (ℕ × ℕ)))) → List CameraFormat
camera_formats [] = []
camera_formats ((fourcc, framesizes) ∷ rest) = listed fourcc framesizes ++ camera_formats rest

-- `probe_camera`, for the device at a path, if it can be opened and queried.
unfoldable pub probe_camera : Text → Option CameraDevice → Option CameraInfo
unfolding camera_formats
probe_camera device_path none = none
probe_camera device_path (some dev) = some (record {
  device = device_path;
  name = some dev.card;
  driver = some dev.driver;
  formats = camera_formats dev.formats;
})

-- The probes that succeed.
abbrev probed : (Text → Option CameraDevice) → List Text → List CameraInfo
probed devices [] = []
probed devices (device ∷ rest) = elim (probe_camera device (devices device)) [
  | some c ↦ c ∷ probed devices rest
  | none ↦ probed devices rest
]

-- What a tick finds, after the priming of the first one. `now` is an instant in nanoseconds.
pub record Host : Type 0 where
  pub now : ℕ
  pub cpu_usage_percent : F64
  pub ram : RamUsage
  pub disks : List DiskUsage
  pub load_avg : LoadAverage
  pub uptime_s : ℕ
  pub networks : NetBytes
  pub addresses : Result (List InterfaceAddress) Text
  pub video_devices : List Text
  pub camera_devices : Text → Option CameraDevice
  pub thermal_file : Option Text

pub record SensorState : Type 0 where
  pub prev_net_bytes : NetBytes
  pub prev_tick_at : Option ℕ

-- `now.saturating_duration_since(t)`, or zero on the first tick.
abbrev pub elapsed_since : Option ℕ → ℕ → ℕ
elapsed_since none now = 0
elapsed_since (some t) now = now - t

abbrev pub ok_or_none : Result F64 TempReadError → Option F64
ok_or_none (ok t) = some t
ok_or_none (err e) = none

-- `SystemSensor::sample`
unfoldable pub sample : Host → SensorState → SystemTelemetry × SensorState
unfolding probe_camera sample_interfaces read_temperature ipv4_map_for_all_interfaces
sample host st =
    let elapsed = elapsed_since st.prev_tick_at host.now in
    (
      record {
        cpu_temperature_c = ok_or_none (read_temperature host.thermal_file);
        cpu_usage_percent = host.cpu_usage_percent;
        ram = host.ram;
        disks = host.disks;
        load_avg = host.load_avg;
        uptime_s = host.uptime_s;
        network_interfaces =
            sample_interfaces st.prev_net_bytes (ipv4_map_for_all_interfaces host.addresses) elapsed
              host.networks;
        cameras = probed host.camera_devices host.video_devices;
      },
      record { prev_net_bytes = host.networks; prev_tick_at = some host.now },
    )
