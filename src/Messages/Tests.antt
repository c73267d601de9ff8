-- ===== src/Messages/Tests.antt =====
-- A command in time and late.
use uswarm_unitctl.Base.{◌≡◌, refl, ◌^◌, some, true, false, codes, arith, ◌*◌, ◌+◌}
use uswarm_unitctl.Messages.{CommandEnvelope, get_config, is_expired_at}
use uswarm_unitctl.Messages.Expiry.{is_expired_at_iff}

-- Issued at second 100, to be done within 30 seconds.
abbrev sample_envelope : CommandEnvelope Unit
sample_envelope = record {
  uuid = codes "a";
  issued_at = 100 * 1000000000;
  ttl_sec = 30;
  payload = get_config;
}

in_time : is_expired_at (10 ^ 30) sample_envelope (130 * 1000000000) ≡ some false
unfolding is_expired_at
in_time = refl

is_expired_at_iff_example :
    is_expired_at (10 ^ 30) sample_envelope (130 * 1000000000 + 1) ≡ some true
is_expired_at_iff_example =
    (is_expired_at_iff (10 ^ 30) sample_envelope (130 * 1000000000 + 1) (omega arith)).1.1
      (omega arith)
