-- ===== src/Env/Lines.antt =====
-- An accepted configuration cannot add a line to an env file.
use uswarm_unitctl.Base.{
  ℕ, ◌≡◌, refl, ap, ◌∙◌, true, false, List, [], ◌∷◌, Text, codes, decimal, decimal-digits,
  free_of_digits, split, split-append, split_whole, is_free_of, All, all-append, contains_char, ok,
  arith, ◌==◌, if◌then◌else◌,
}
use uswarm_unitctl.Config.{Config, MavlinkConfig, CameraConfig, validate}
use uswarm_unitctl.Config.Valid.{IsOneLine, IsPrintable}
use uswarm_unitctl.Config.Accepts.{validate_iff}
use uswarm_unitctl.Env.{
  assign, join_lines, mavlink_lines, camera_lines, generate_mavlink_env, generate_camera_env,
}

abbrev OneLine : Text → Type 0
OneLine s = is_free_of 10 s ≡ true

split-join_lines :
    (l : Text) (ls : List Text) → All OneLine (l ∷ ls) → split 10 (join_lines (l ∷ ls)) ≡ l ∷ ls
unfolding join_lines
split-join_lines l [] h = split_whole 10 l h.0
split-join_lines l (m ∷ ls) h =
    split-append 10 l (join_lines (m ∷ ls)) h.0 ∙ ap (λ rest. l ∷ rest) (split-join_lines m ls h.1)

free_of_absent : (s : Text) → contains_char s 10 ≡ false → OneLine s
free_of_absent [] h = refl
free_of_absent (c ∷ s) h = ground (arith, free_of_absent s)

assign-OneLine : (key value : Text) → OneLine key → OneLine value → OneLine (assign key value)
assign-OneLine key value hk hv =
    ground (arith, all-append (λ d. if d == 10 then false else true) key (b'=' ∷ value))

decimal-OneLine : (n : ℕ) → OneLine (decimal n)
decimal-OneLine n = free_of_digits 10 (decimal n) refl (decimal-digits n)

text-OneLine : {s : Text} → IsOneLine s → OneLine s
text-OneLine {s} h = free_of_absent s h.no_newline

number_line : (key : Text) (n : ℕ) → OneLine key → OneLine (assign key (decimal n))
number_line key n h = assign-OneLine key (decimal n) h (decimal-OneLine n)

module _ {m : MavlinkConfig} {k : CameraConfig} (p : IsPrintable m k) where
  mavlink_lines-OneLine : All OneLine (mavlink_lines m)
  mavlink_lines-OneLine = (
    assign-OneLine (codes "GCS_IP") m.gcs_ip refl (text-OneLine p.gcs_ip),
    (
      number_line (codes "REMOTE_MAVLINK_PORT") m.remote_mavlink_port refl,
      (
        number_line (codes "SNIFFER_SYS_ID") m.sniffer_sysid refl,
        (
          number_line (codes "LOCAL_MAVLINK_PORT") m.local_mavlink_port refl,
          (
            assign-OneLine (codes "FC_TTY") m.fc.tty refl (text-OneLine p.tty),
            (number_line (codes "FC_BAUDRATE") m.fc.baudrate refl, tt),
          ),
        ),
      ),
    ),
  )

  camera_lines-OneLine : All OneLine (camera_lines k)
  camera_lines-OneLine = (
    assign-OneLine (codes "GCS_IP") k.gcs_ip refl (text-OneLine p.camera_ip),
    (
      number_line (codes "REMOTE_VIDEO_PORT") k.remote_video_port refl,
      (
        number_line (codes "CAMERA_WIDTH") k.width refl,
        (
          number_line (codes "CAMERA_HEIGHT") k.height refl,
          (
            number_line (codes "CAMERA_FRAMERATE") k.framerate refl,
            (
              number_line (codes "CAMERA_BITRATE") k.bitrate refl,
              (
                number_line (codes "CAMERA_FLIP") k.flip refl,
                (
                  assign-OneLine (codes "CAMERA_TYPE") k.camera_type refl
                      (text-OneLine p.camera_type),
                  (
                    assign-OneLine (codes "CAMERA_DEVICE") k.device refl (text-OneLine p.device),
                    tt,
                  ),
                ),
              ),
            ),
          ),
        ),
      ),
    ),
  )

-- Of an accepted configuration the generated env file for mavlink-routerd has exactly its six lines,
-- and that for the camera exactly its nine: no value can bring in a line of its own.
pub env_lines :
    (c : Config)
    → validate c ≡ ok tt
    → (split 10 (generate_mavlink_env c.mavlink) ≡ mavlink_lines c.mavlink)
      × (split 10 (generate_camera_env c.camera) ≡ camera_lines c.camera)
unfolding generate_mavlink_env generate_camera_env
env_lines c valid =
    let p = ((validate_iff c).0 valid).printable in
    (split-join_lines _ _ (mavlink_lines-OneLine p), split-join_lines _ _ (camera_lines-OneLine p))
