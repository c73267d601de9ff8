-- ===== src/Mavlink/Frames.antt =====
-- The frames that the program builds, as far as it fills them: `MavFrame` of mavlink/mod.rs, with its
-- heartbeat, and the command of mavlink/telemetry_reporter.rs. The types of messages and their
-- enumerators are the mavlink crate's.
use uswarm_unitctl.Base.{ℕ, false}
use uswarm_unitctl.Float.{F64, nat_as_f32}
use uswarm_unitctl.Mavlink.Subcommands.{MavCmdUser1SubCmd, id_of}

pub record MavHeader : Type 0 where
  pub system_id : ℕ
  pub component_id : ℕ
  pub sequence : ℕ

pub data MavCmd : Type 0 where
  mav_cmd_user_1 : MavCmd

pub data MavType : Type 0 where
  mav_type_onboard_controller : MavType

pub data MavAutopilot : Type 0 where
  mav_autopilot_invalid : MavAutopilot

pub data MavState : Type 0 where
  mav_state_active : MavState

pub record CommandLongData : Type 0 where
  pub target_system : ℕ
  pub target_component : ℕ
  pub command : MavCmd
  pub confirmation : ℕ
  pub param1 : F64
  pub param2 : F64
  pub param3 : F64
  pub param4 : F64
  pub param5 : F64
  pub param6 : F64
  pub param7 : F64

-- `base_mode` is the number of the flags.
pub record HeartbeatData : Type 0 where
  pub custom_mode : ℕ
  pub mavtype : MavType
  pub autopilot : MavAutopilot
  pub base_mode : ℕ
  pub system_status : MavState
  pub mavlink_version : ℕ

pub data MavMessage : Type 0 where
  command_long : CommandLongData → MavMessage
  heartbeat : HeartbeatData → MavMessage

abbrev pub MavFrame : Type 0
MavFrame = MavHeader × MavMessage

-- `build_heartbeat`
unfoldable pub build_heartbeat : ℕ → ℕ → MavFrame
build_heartbeat sysid compid = (
  record { system_id = sysid; component_id = compid; sequence = 0 },
  heartbeat (record {
    custom_mode = 0;
    mavtype = mav_type_onboard_controller;
    autopilot = mav_autopilot_invalid;
    base_mode = 0;
    system_status = mav_state_active;
    mavlink_version = 3;
  }),
)

-- Sender and receiver of a command: the first four arguments of the functions that build one.
pub record Route : Type 0 where
  pub self_sysid : ℕ
  pub self_compid : ℕ
  pub target_system : ℕ
  pub target_component : ℕ

-- `TelemetryReporter::build_command_long`
unfoldable pub build_command_long :
    Route → MavCmdUser1SubCmd → F64 → F64 → F64 → F64 → F64 → F64 → MavFrame
build_command_long route subcmd param2 param3 param4 param5 param6 param7 = (
  record { system_id = route.self_sysid; component_id = route.self_compid; sequence = 0 },
  command_long (record {
    target_system = route.target_system;
    target_component = route.target_component;
    command = mav_cmd_user_1;
    confirmation = 0;
    param1 = nat_as_f32 false (id_of subcmd);
    param2 = param2;
    param3 = param3;
    param4 = param4;
    param5 = param5;
    param6 = param6;
    param7 = param7;
  }),
)
