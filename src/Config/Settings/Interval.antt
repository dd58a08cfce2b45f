-- ===== src/Config/Settings/Interval.antt =====
-- The time between two cycles of the agent: internal/config/config.go, `PollInterval`.
use Prim.Native.Nat.{◌^◌}
use releasepanel_agent.Base.{◌*◌, ◌≤◌, ◌<◌, ◌≡◌, ◌⊎◌, arith, true, false, if◌then◌else◌}
use releasepanel_agent.Config.Settings.{
  Config, is_positive, second, default_poll_interval, poll_interval,
}

-- Where the number of seconds is at most 9223372036, some 292 years, or is negative, the interval
-- is positive: the configured number of seconds, or the default if that number is not positive.
pub poll_interval_lem :
    (c : Config)
    → (c.poll_interval_seconds ≤ 9223372036)
      ⊎ ((2 ^ 63 ≤ c.poll_interval_seconds) × (c.poll_interval_seconds < 2 ^ 64))
    → (is_positive (poll_interval c) ≡ true)
      × (poll_interval c ≡ (
          if is_positive c.poll_interval_seconds
          then c.poll_interval_seconds * second
          else default_poll_interval))
unfolding poll_interval is_positive
poll_interval_lem c h = (ground arith, ground arith)

-- From there to 18446744073 seconds the product wraps around to a negative interval, at which
-- `time.NewTicker` panics.
poll_interval_wraps :
    (c : Config)
    → 9223372036 < c.poll_interval_seconds
    → c.poll_interval_seconds ≤ 18446744073
    → is_positive (poll_interval c) ≡ false
unfolding poll_interval is_positive
poll_interval_wraps c lo hi = ground arith
