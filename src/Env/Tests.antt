-- ===== src/Env/Tests.antt =====
-- The env files of the sample configuration.
use uswarm_unitctl.Base.{◌≡◌, split}
use uswarm_unitctl.Config.Sample.{sample_config, sample_accepted, sample_mavlink, sample_camera}
use uswarm_unitctl.Env.{generate_mavlink_env, mavlink_lines, generate_camera_env, camera_lines}
use uswarm_unitctl.Env.Lines.{env_lines}

env_lines_example :
    (split 10 (generate_mavlink_env sample_mavlink) ≡ mavlink_lines sample_mavlink)
    × (split 10 (generate_camera_env sample_camera) ≡ camera_lines sample_camera)
env_lines_example = env_lines sample_config sample_accepted
