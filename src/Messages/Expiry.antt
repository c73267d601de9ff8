-- ===== src/Messages/Expiry.antt =====
-- The expiry of commands.
use uswarm_unitctl.Base.{ℕ, ◌+◌, ◌*◌, ◌≤◌, ◌<◌, min, ◌≡◌, ◌≢◌, ◌↔◌, true, none, some, arith}
use uswarm_unitctl.Float.{nanos_per_sec}
use uswarm_unitctl.Messages.{CommandEnvelope, max_ttl_sec, is_expired_at}

module _ {V : Type 0} (last_instant : ℕ) (e : CommandEnvelope V) where
  -- For an envelope that was issued ten years or more before the last instant of the calendar, and
  -- whatever its time to live, the test is decided, and it says "expired" exactly after the time to
  -- live, or ten years if that is less, has passed.
  pub is_expired_at_iff :
      (now : ℕ)
      → e.issued_at + max_ttl_sec * nanos_per_sec ≤ last_instant
      → (is_expired_at last_instant e now ≢ none)
        × ((is_expired_at last_instant e now ≡ some true)
            ↔ (e.issued_at + min e.ttl_sec max_ttl_sec * nanos_per_sec < now))
  unfolding is_expired_at
  is_expired_at_iff now early = ground arith

  -- An envelope whose time to live, capped, leads past the last instant of the calendar makes the
  -- test panic at every time.
  pub is_expired_at_panics :
      (now : ℕ)
      → last_instant < e.issued_at + min e.ttl_sec max_ttl_sec * nanos_per_sec
      → is_expired_at last_instant e now ≡ none
  unfolding is_expired_at
  is_expired_at_panics now late = ground arith
