-- ===== src/Mavlink/Subcommands/Tests.antt =====
-- A number and its subcommand.
use uswarm_unitctl.Base.{◌≡◌, refl, some}
use uswarm_unitctl.Mavlink.Subcommands.{from_id, id_of, video_quality}
use uswarm_unitctl.Mavlink.Subcommands.Numbers.{from_id_iff}

from_id_iff_example : from_id 31021 ≡ some video_quality
unfolding id_of
from_id_iff_example = (from_id_iff 31021 video_quality).1 refl
