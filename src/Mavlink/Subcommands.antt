-- ===== src/Mavlink/Subcommands.antt =====
-- mavlink/commands.rs: the subcommands of MAV_CMD_USER_1 and their numbers.
pub mod Numbers
mod Tests
use uswarm_unitctl.Base.{
  ℕ, Bool, true, false, Option, none, some, List, [], ◌∷◌, ◌==◌, if◌then◌else◌,
}

pub data MavCmdUser1SubCmd : Type 0 where
  turn_on_lm : MavCmdUser1SubCmd
  switch_to_lte : MavCmdUser1SubCmd
  switch_to_lm : MavCmdUser1SubCmd
  lte_radio_telemetry : MavCmdUser1SubCmd
  lte_ip_telemetry : MavCmdUser1SubCmd
  drone_lm_radio_telemetry : MavCmdUser1SubCmd
  drone_lm_ip_telemetry : MavCmdUser1SubCmd
  repeater_lm_radio_telemetry : MavCmdUser1SubCmd
  repeater_lm_ip_telemetry : MavCmdUser1SubCmd
  active_vehicle : MavCmdUser1SubCmd
  video_quality : MavCmdUser1SubCmd
  switch_camera : MavCmdUser1SubCmd
  gps_manager : MavCmdUser1SubCmd
  lte_ip_telemetry_neighbors_0 : MavCmdUser1SubCmd
  lte_ip_telemetry_neighbors_1 : MavCmdUser1SubCmd
  lte_ip_telemetry_neighbors_2 : MavCmdUser1SubCmd
  lte_ip_telemetry_neighbors_3 : MavCmdUser1SubCmd
  lte_ip_telemetry_neighbors_4 : MavCmdUser1SubCmd
  lte_ip_telemetry_neighbors_5 : MavCmdUser1SubCmd
  lte_ip_telemetry_neighbors_6 : MavCmdUser1SubCmd
  lte_ip_telemetry_neighbors_7 : MavCmdUser1SubCmd
  lte_ip_telemetry_neighbors_8 : MavCmdUser1SubCmd
  lte_ip_telemetry_neighbors_9 : MavCmdUser1SubCmd

-- `MavCmdUser1SubCmd::from_id`
unfoldable pub from_id : ℕ → Option MavCmdUser1SubCmd
from_id id =
    if id == 31011
    then some turn_on_lm
    else if id == 31012
    then some switch_to_lte
    else if id == 31013
    then some switch_to_lm
    else if id == 31014
    then some lte_radio_telemetry
    else if id == 31015
    then some lte_ip_telemetry
    else if id == 31016
    then some drone_lm_radio_telemetry
    else if id == 31017
    then some drone_lm_ip_telemetry
    else if id == 31018
    then some repeater_lm_radio_telemetry
    else if id == 31019
    then some repeater_lm_ip_telemetry
    else if id == 31020
    then some active_vehicle
    else if id == 31021
    then some video_quality
    else if id == 31022
    then some switch_camera
    else if id == 31030
    then some gps_manager
    else if id == 31040
    then some lte_ip_telemetry_neighbors_0
    else if id == 31041
    then some lte_ip_telemetry_neighbors_1
    else if id == 31042
    then some lte_ip_telemetry_neighbors_2
    else if id == 31043
    then some lte_ip_telemetry_neighbors_3
    else if id == 31044
    then some lte_ip_telemetry_neighbors_4
    else if id == 31045
    then some lte_ip_telemetry_neighbors_5
    else if id == 31046
    then some lte_ip_telemetry_neighbors_6
    else if id == 31047
    then some lte_ip_telemetry_neighbors_7
    else if id == 31048
    then some lte_ip_telemetry_neighbors_8
    else if id == 31049
    then some lte_ip_telemetry_neighbors_9
    else none

-- `MavCmdUser1SubCmd::id`, the discriminants of the enum.
unfoldable pub id_of : MavCmdUser1SubCmd → ℕ
id_of turn_on_lm = 31011
id_of switch_to_lte = 31012
id_of switch_to_lm = 31013
id_of lte_radio_telemetry = 31014
id_of lte_ip_telemetry = 31015
id_of drone_lm_radio_telemetry = 31016
id_of drone_lm_ip_telemetry = 31017
id_of repeater_lm_radio_telemetry = 31018
id_of repeater_lm_ip_telemetry = 31019
id_of active_vehicle = 31020
id_of video_quality = 31021
id_of switch_camera = 31022
id_of gps_manager = 31030
id_of lte_ip_telemetry_neighbors_0 = 31040
id_of lte_ip_telemetry_neighbors_1 = 31041
id_of lte_ip_telemetry_neighbors_2 = 31042
id_of lte_ip_telemetry_neighbors_3 = 31043
id_of lte_ip_telemetry_neighbors_4 = 31044
id_of lte_ip_telemetry_neighbors_5 = 31045
id_of lte_ip_telemetry_neighbors_6 = 31046
id_of lte_ip_telemetry_neighbors_7 = 31047
id_of lte_ip_telemetry_neighbors_8 = 31048
id_of lte_ip_telemetry_neighbors_9 = 31049

-- `MavCmdUser1SubCmd::all`
unfoldable pub all_subcommands : List MavCmdUser1SubCmd
all_subcommands =
    turn_on_lm ∷ switch_to_lte ∷ switch_to_lm ∷ lte_radio_telemetry ∷ lte_ip_telemetry
    ∷ drone_lm_radio_telemetry ∷ drone_lm_ip_telemetry ∷ repeater_lm_radio_telemetry
    ∷ repeater_lm_ip_telemetry ∷ active_vehicle ∷ video_quality ∷ switch_camera ∷ gps_manager
    ∷ lte_ip_telemetry_neighbors_0 ∷ lte_ip_telemetry_neighbors_1 ∷ lte_ip_telemetry_neighbors_2
    ∷ lte_ip_telemetry_neighbors_3 ∷ lte_ip_telemetry_neighbors_4 ∷ lte_ip_telemetry_neighbors_5
    ∷ lte_ip_telemetry_neighbors_6 ∷ lte_ip_telemetry_neighbors_7 ∷ lte_ip_telemetry_neighbors_8
    ∷ lte_ip_telemetry_neighbors_9 ∷ []
