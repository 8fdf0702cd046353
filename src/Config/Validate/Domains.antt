-- ===== src/Config/Validate/Domains.antt =====
-- internal/config/validation.go: the build, the daemon, the paths and the versions, and the whole.
use Prim.Native.String.{String}
use docbuilder.Common.{ℕ, not, ◌&&◌, Option, none, some, if◌then◌else◌}
use docbuilder.Common.Int.{ℤ, pos, lt_ℤ, is_pos, is_neg}
use docbuilder.Common.Text.{is_empty, str_eq}
use docbuilder.Config.{
  Library, BuildConfig, OutputConfig, BuildDebounceConfig, DaemonConfig, VersioningConfig, Config,
}
use docbuilder.Config.Enums.{clone_strategies, retry_backoffs, versioning_strategies}
use docbuilder.Config.Validate.{
  ConfigError, Checked, refused, passed, unless, and_then, Check, ok, one_of, validate_forges,
  validate_repositories, invalid_backoff, invalid_clone_strategy, invalid_initial_delay,
  invalid_max_delay, max_delay_too_small, negative_retries, empty_schedule, invalid_schedule,
  invalid_quiet_window, quiet_window_not_positive, quiet_window_too_long, invalid_debounce_delay,
  debounce_delay_not_positive, debounce_delay_too_long, debounce_delay_too_small, output_mismatch,
  invalid_strategy, strategy_required,
}

-- The durations that time.ParseDuration reads, the first first
unfoldable pub check_delays : Option ℤ → Option ℤ → Check
check_delays none max = refused invalid_initial_delay
check_delays (some initial) none = refused invalid_max_delay
check_delays (some initial) (some max) = unless (lt_ℤ max initial) max_delay_too_small ok

-- validateRetryDelays
unfoldable pub validate_retry_delays : Library → BuildConfig → Check
unfolding check_delays
validate_retry_delays l b =
    check_delays (l.parse_duration b.retry_initial_delay) (l.parse_duration b.retry_max_delay)

-- validateBuild
unfoldable pub validate_build : Library → BuildConfig → Check
validate_build l b = unless (not (one_of retry_backoffs b.retry_backoff)) invalid_backoff (
    unless (not (one_of clone_strategies b.clone_strategy)) invalid_clone_strategy (
      and_then (validate_retry_delays l b)
        (λ _. unless (is_neg b.max_retries) negative_retries ok)))

-- maxDaemonBuildDebounceDuration, in nanoseconds
abbrev pub one_day : ℕ
one_day = 86400000000000

unfoldable pub check_window :
    ConfigError → ConfigError → ConfigError → Option ℤ → Checked (Option ℤ)
check_window invalid not_positive too_long none = refused invalid
check_window invalid not_positive too_long (some d) =
    unless (not (is_pos d)) not_positive (unless (lt_ℤ (pos one_day) d) too_long (passed (some d)))

-- One of the two durations, if it is given
unfoldable pub validate_window :
    Library → ConfigError → ConfigError → ConfigError → String → Checked (Option ℤ)
unfolding check_window
validate_window l invalid not_positive too_long raw =
    let text = l.trim_space raw in
    let checked = check_window invalid not_positive too_long (l.parse_duration text) in
    if is_empty text then passed none else checked

unfoldable pub check_order : Option ℤ → Option ℤ → Check
check_order (some quiet) (some max) = unless (lt_ℤ max quiet) debounce_delay_too_small ok
check_order _ _ = ok

-- validateDaemonBuildDebounce
unfoldable pub validate_debounce : Library → BuildDebounceConfig → Check
unfolding check_order
validate_debounce l d =
    and_then
      (validate_window l invalid_quiet_window quiet_window_not_positive quiet_window_too_long
        d.quiet_window)
      (λ quiet.
        and_then
          (validate_window l invalid_debounce_delay debounce_delay_not_positive
            debounce_delay_too_long d.max_delay)
          (λ max. check_order quiet max))

unfoldable pub debounce_checked : Library → Option BuildDebounceConfig → Check
debounce_checked l none = ok
debounce_checked l (some d) = validate_debounce l d

-- validateDaemon
unfoldable pub validate_daemon : Library → Option DaemonConfig → Check
unfolding debounce_checked
validate_daemon l none = ok
validate_daemon l (some d) =
    let expr = l.trim_space d.sync.schedule in
    unless (is_empty expr) empty_schedule
      (unless (not (l.accepts_cron expr)) invalid_schedule (debounce_checked l d.build_debounce))

-- validatePaths
unfoldable pub validate_paths : Library → OutputConfig → Option DaemonConfig → Check
validate_paths l o none = ok
validate_paths l o (some d) =
    let out = l.clean_path (if is_empty o.directory then "./site" else o.directory) in
    unless
      (not (is_empty d.storage.output_dir) && not (str_eq (l.clean_path d.storage.output_dir) out))
      output_mismatch ok

-- validateVersioning
unfoldable pub validate_versioning : Option VersioningConfig → Check
validate_versioning none = ok
validate_versioning (some v) =
    unless (not (is_empty v.strategy) && not (one_of versioning_strategies v.strategy))
      invalid_strategy (unless (v.enabled && is_empty v.strategy) strategy_required ok)

-- ValidateConfig; what passes is the configuration with its forge types normalized.
unfoldable pub validate_config : Library → Config → Checked Config
validate_config l c = and_then (validate_forges l c.forges c.repositories) (λ forges.
    and_then (validate_repositories c.repositories) (λ _. and_then (validate_build l c.build) (λ _.
      and_then (validate_daemon l c.daemon) (λ _.
        and_then (validate_paths l c.output c.daemon) (λ _.
          and_then (validate_versioning c.versioning)
            (λ _. passed (record c { forges = forges })))))))
