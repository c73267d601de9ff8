-- ===== src/Config/Tests.antt =====
-- Runs of `Config::validate`.
use uswarm_unitctl.Base.{◌≡◌, refl, err, text_eq}
use uswarm_unitctl.Config.Defs.{validation}
use uswarm_unitctl.Config.Checks.{validate, first_error}
use uswarm_unitctl.Config.Valid.{IsValid}
use uswarm_unitctl.Config.Accepts.{validate_iff}
use uswarm_unitctl.Config.Sample.{sample_config, sample_mavlink, sample_accepted}

clash_refused :
    validate (record sample_config { mavlink = record sample_mavlink { bs_sysid = 199 } })
    ≡ err (validation "mavlink.sniffer_sysid must differ from bs_sysid")
unfolding validate first_error text_eq
clash_refused = refl

validate_iff_example : IsValid sample_config
validate_iff_example = (validate_iff sample_config).0 sample_accepted
