-- ===== src/Env.antt =====
-- env/mavlink_env.rs and env/camera_env.rs: the env files that systemd reads, one assignment a line.
pub mod Lines
mod Tests
use uswarm_unitctl.Base.{List, [], ◌∷◌, ◌++◌, Text, codes, decimal}
use uswarm_unitctl.Config.{MavlinkConfig, CameraConfig}

-- `KEY={}`
abbrev pub assign : Text → Text → Text
assign key value = key ++ (b'=' ∷ value)

-- The lines of a format string, with `\n` between them.
unfoldable pub join_lines : List Text → Text
join_lines [] = []
join_lines (l ∷ []) = l
join_lines (l ∷ m ∷ ls) = l ++ (10 ∷ join_lines (m ∷ ls))

abbrev pub mavlink_lines : MavlinkConfig → List Text
mavlink_lines config =
    assign (codes "GCS_IP") config.gcs_ip
    ∷ assign (codes "REMOTE_MAVLINK_PORT") (decimal config.remote_mavlink_port)
    ∷ assign (codes "SNIFFER_SYS_ID") (decimal config.sniffer_sysid)
    ∷ assign (codes "LOCAL_MAVLINK_PORT") (decimal config.local_mavlink_port)
    ∷ assign (codes "FC_TTY") config.fc.tty
    ∷ assign (codes "FC_BAUDRATE") (decimal config.fc.baudrate)
    ∷ []

-- `generate_mavlink_env`
unfoldable pub generate_mavlink_env : MavlinkConfig → Text
generate_mavlink_env config = join_lines (mavlink_lines config)

abbrev pub camera_lines : CameraConfig → List Text
camera_lines config =
    assign (codes "GCS_IP") config.gcs_ip
    ∷ assign (codes "REMOTE_VIDEO_PORT") (decimal config.remote_video_port)
    ∷ assign (codes "CAMERA_WIDTH") (decimal config.width)
    ∷ assign (codes "CAMERA_HEIGHT") (decimal config.height)
    ∷ assign (codes "CAMERA_FRAMERATE") (decimal config.framerate)
    ∷ assign (codes "CAMERA_BITRATE") (decimal config.bitrate)
    ∷ assign (codes "CAMERA_FLIP") (decimal config.flip)
    ∷ assign (codes "CAMERA_TYPE") config.camera_type
    ∷ assign (codes "CAMERA_DEVICE") config.device
    ∷ []

-- `generate_camera_env`
unfoldable pub generate_camera_env : CameraConfig → Text
generate_camera_env config = join_lines (camera_lines config)
