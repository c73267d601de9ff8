-- ===== src/Mavlink/Subcommands/Numbers.antt =====
-- The numbers name the subcommands.
use uswarm_unitctl.Base.{
  ℕ, ◌≡◌, ◌↔◌, inl, inr, refl, ap, sym, ◌∙◌, Option, none, some, List, [], ◌∷◌, ◌==◌, if◌then◌else◌,
  Bool-cases, ==_iff,
}
use uswarm_unitctl.Mavlink.Subcommands.{
  MavCmdUser1SubCmd, turn_on_lm, switch_to_lte, switch_to_lm, lte_radio_telemetry, lte_ip_telemetry,
  drone_lm_radio_telemetry, drone_lm_ip_telemetry, repeater_lm_radio_telemetry,
  repeater_lm_ip_telemetry, active_vehicle, video_quality, switch_camera, gps_manager,
  lte_ip_telemetry_neighbors_0, lte_ip_telemetry_neighbors_1, lte_ip_telemetry_neighbors_2,
  lte_ip_telemetry_neighbors_3, lte_ip_telemetry_neighbors_4, lte_ip_telemetry_neighbors_5,
  lte_ip_telemetry_neighbors_6, lte_ip_telemetry_neighbors_7, lte_ip_telemetry_neighbors_8,
  lte_ip_telemetry_neighbors_9, from_id, id_of, all_subcommands,
}

some_injective : {A : Type 0} {a b : A} → some a ≡ some b → a ≡ b
some_injective h = cc

from_id-id_of : (c : MavCmdUser1SubCmd) → from_id (id_of c) ≡ some c
unfolding from_id id_of
from_id-id_of turn_on_lm = refl
from_id-id_of switch_to_lte = refl
from_id-id_of switch_to_lm = refl
from_id-id_of lte_radio_telemetry = refl
from_id-id_of lte_ip_telemetry = refl
from_id-id_of drone_lm_radio_telemetry = refl
from_id-id_of drone_lm_ip_telemetry = refl
from_id-id_of repeater_lm_radio_telemetry = refl
from_id-id_of repeater_lm_ip_telemetry = refl
from_id-id_of active_vehicle = refl
from_id-id_of video_quality = refl
from_id-id_of switch_camera = refl
from_id-id_of gps_manager = refl
from_id-id_of lte_ip_telemetry_neighbors_0 = refl
from_id-id_of lte_ip_telemetry_neighbors_1 = refl
from_id-id_of lte_ip_telemetry_neighbors_2 = refl
from_id-id_of lte_ip_telemetry_neighbors_3 = refl
from_id-id_of lte_ip_telemetry_neighbors_4 = refl
from_id-id_of lte_ip_telemetry_neighbors_5 = refl
from_id-id_of lte_ip_telemetry_neighbors_6 = refl
from_id-id_of lte_ip_telemetry_neighbors_7 = refl
from_id-id_of lte_ip_telemetry_neighbors_8 = refl
from_id-id_of lte_ip_telemetry_neighbors_9 = refl

-- The first of the subcommands with the number.
unfoldable pub find_id : List MavCmdUser1SubCmd → ℕ → Option MavCmdUser1SubCmd
find_id [] n = none
find_id (c ∷ cs) n = let rest = find_id cs n in if n == id_of c then some c else rest

find_id_sound :
    (cs : List MavCmdUser1SubCmd) (n : ℕ) (c : MavCmdUser1SubCmd)
    → find_id cs n ≡ some c
    → id_of c ≡ n
unfolding find_id
find_id_sound [] n c h = cc
find_id_sound (d ∷ cs) n c h = elim (Bool-cases (n == id_of d)) [
  | inl same ↦ ap id_of (sym (some_injective (rw same at h))) ∙ sym ((==_iff n (id_of d)).0 same)
  | inr other ↦ find_id_sound cs n c (rw other at h)
]

from_id-find_id : (n : ℕ) → from_id n ≡ find_id all_subcommands n
unfolding from_id find_id all_subcommands id_of
from_id-find_id n = refl

-- Of a number the subcommand `c` is read exactly if the number is that of `c`.
pub from_id_iff : (n : ℕ) (c : MavCmdUser1SubCmd) → (from_id n ≡ some c) ↔ (id_of c ≡ n)
from_id_iff n c = (
  λ h. find_id_sound all_subcommands n c (sym (from_id-find_id n) ∙ h),
  λ e. ap from_id (sym e) ∙ from_id-id_of c,
)
