-- ===== src/Config/Load.antt =====
-- internal/config/config.go: what LoadWithResult makes of the decoded file, and what the daemon and
-- the queue take from it: getBuildDebounceDurations (internal/daemon/daemon.go) and ConfigureRetry
-- (internal/build/queue/build_queue.go).
pub mod BuildDefaults
pub mod Fallbacks
pub mod Policies
pub mod Windows
use Prim.Native.String.{String}
use docbuilder.Common.{ℕ, Bool, true, false, not, Option, none, some, if◌then◌else◌}
use docbuilder.Common.Int.{ℤ, pos}
use docbuilder.Common.Text.{is_empty, str_eq}
use docbuilder.Retry.{
  RetryBackoffMode, unset, fixed, linear, exponential, unknown, Policy, new_policy,
}
use docbuilder.Config.{Library, BuildConfig, BuildDebounceConfig, DaemonConfig, Config}
use docbuilder.Config.Normalize.{normalize_config}
use docbuilder.Config.Defaults.Daemon.{apply_defaults}
use docbuilder.Config.Validate.{Checked, unless, unsupported_version}
use docbuilder.Config.Validate.Domains.{validate_config}

-- LoadWithResult, after the file is decoded; the warnings do not matter to the result.
unfoldable pub load : Library → Config → Checked Config
load l c =
    unless (not (str_eq c.version "2.0")) unsupported_version
      (validate_config l (apply_defaults l (normalize_config l c).0))

-- The text of a backoff mode, as the retry policy reads it
unfoldable pub mode_of : String → RetryBackoffMode
mode_of s =
    if is_empty s
    then unset
    else if str_eq s "fixed"
    then fixed
    else if str_eq s "linear"
    then linear
    else if str_eq s "exponential"
    then exponential
    else unknown

-- d, _ := time.ParseDuration(s)
abbrev pub or_zero : Option ℤ → ℤ
or_zero none = pos 0
or_zero (some d) = d

-- ConfigureRetry: the policy of the queue
unfoldable pub configure_retry : Library → BuildConfig → Policy
configure_retry l b =
    new_policy (mode_of b.retry_backoff) (or_zero (l.parse_duration b.retry_initial_delay))
      (or_zero (l.parse_duration b.retry_max_delay)) b.max_retries

-- One duration of getBuildDebounceDurations, `none` where it does not parse
unfoldable pub duration_or : Library → ℤ → String → Option ℤ
duration_or l d raw =
    let text = l.trim_space raw in if is_empty text then some d else l.parse_duration text

both : Option ℤ → Option ℤ → Option (ℤ × ℤ)
both (some a) (some b) = some (a, b)
both _ _ = none

debounce_durations : Library → Option BuildDebounceConfig → Option (ℤ × ℤ)
unfolding both
debounce_durations l none = some (pos 10000000000, pos 60000000000)
debounce_durations l (some d) =
    both (duration_or l (pos 10000000000) d.quiet_window)
      (duration_or l (pos 60000000000) d.max_delay)

-- getBuildDebounceDurations, the quiet window first
unfoldable pub get_build_debounce_durations : Library → Option DaemonConfig → Option (ℤ × ℤ)
unfolding debounce_durations
get_build_debounce_durations l none = some (pos 10000000000, pos 60000000000)
get_build_debounce_durations l (some d) = debounce_durations l d.build_debounce
