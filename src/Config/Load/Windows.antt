-- ===== src/Config/Load/Windows.antt =====
-- The debounce durations of a configuration that was loaded.
use Prim.Native.String.{String}
use mathlib.Core.Option.{some-injective}
use docbuilder.Common.{
  Bool, true, false, not, ◌≡◌, refl, sym, ap, ◌∙◌, Option, none, some, arith, Bool-cases, inl, inr,
}
use docbuilder.Common.Int.{ℤ, pos, is_pos, lt_ℤ}
use docbuilder.Common.Text.{is_empty, str_eq}
use docbuilder.Config.{Library, Config, DaemonConfig, BuildDebounceConfig}
use docbuilder.Config.Normalize.{normalize_config}
use docbuilder.Config.Defaults.Daemon.{
  apply_defaults, default_daemon, default_debounce, daemon_defaults,
}
use docbuilder.Config.Defaults.{default_output}
use docbuilder.Config.Validate.{
  ConfigError, passed, invalid_quiet_window, quiet_window_not_positive, quiet_window_too_long,
  invalid_debounce_delay, debounce_delay_not_positive, debounce_delay_too_long, empty_schedule,
  invalid_schedule, unsupported_version,
}
use docbuilder.Config.Validate.Domains.{
  one_day, check_window, validate_window, validate_debounce, debounce_checked, validate_daemon,
}
use docbuilder.Config.Validate.Passed.{validate_config-IsValid, unless-passed, and_then-passed}
use docbuilder.Config.Load.{
  load, duration_or, both, debounce_durations, get_build_debounce_durations,
}
use docbuilder.Debouncer.Settings.{new_build_debouncer}

-- A duration of more than 0 and at most a day
pub record IsWindow (d : ℤ) : Type 0 where
  pub positive : is_pos d ≡ true
  pub short : lt_ℤ (pos one_day) d ≡ false

check_window-passed :
    (e1 e2 e3 : ConfigError) (o : Option ℤ) (answer : Option ℤ)
    → check_window e1 e2 e3 o ≡ passed answer
    → (d : ℤ) × (o ≡ some d) × IsWindow d
unfolding check_window
check_window-passed e1 e2 e3 none answer h = absurd (cc)
check_window-passed e1 e2 e3 (some d) answer h =
    let (positive, h1) = unless-passed (not (is_pos d)) e2 _ answer h in
    let (short, h2) = unless-passed (lt_ℤ (pos one_day) d) e3 _ answer h1 in
    (d, refl, record { positive = ground (arith, positive); short = short })

-- What passes is read as a window, if the default is one.
validate_window-duration_or :
    (l : Library) (e1 e2 e3 : ConfigError) (raw : String) (answer : Option ℤ) (default : ℤ)
    → validate_window l e1 e2 e3 raw ≡ passed answer
    → IsWindow default
    → (d : ℤ) × (duration_or l default raw ≡ some d) × IsWindow d
unfolding validate_window duration_or
validate_window-duration_or l e1 e2 e3 raw answer default h w =
    elim (Bool-cases (is_empty (l.trim_space raw))) [
      | inl blank ↦ (default, rw blank refl, w)
      | inr text ↦
          let (d, parsed, window) =
            check_window-passed e1 e2 e3 (l.parse_duration (l.trim_space raw)) answer
              (rw text at h) in
          (d, rw text parsed, window)
    ]

-- validateDaemonBuildDebounce, and what getBuildDebounceDurations then reads
validate_debounce-durations :
    (l : Library) (d : BuildDebounceConfig) (answer : Bool)
    → validate_debounce l d ≡ passed answer
    → (quiet max : ℤ) × (debounce_durations l (some d) ≡ some (quiet, max))
      × IsWindow quiet
      × IsWindow max
unfolding validate_debounce debounce_durations both
validate_debounce-durations l d answer h =
    let (q, quiet_passed, h1) =
      and_then-passed
        (validate_window l invalid_quiet_window quiet_window_not_positive quiet_window_too_long
          d.quiet_window)
        _ answer h in
    let (m, max_passed, h2) =
      and_then-passed
        (validate_window l invalid_debounce_delay debounce_delay_not_positive
          debounce_delay_too_long d.max_delay)
        _ answer h1 in
    let (quiet, quiet_read, quiet_window) =
      validate_window-duration_or l _ _ _ d.quiet_window q (pos 10000000000) quiet_passed
        (record { positive = refl; short = refl }) in
    let (max, max_read, max_window) =
      validate_window-duration_or l _ _ _ d.max_delay m (pos 60000000000) max_passed
        (record { positive = refl; short = refl }) in
    (quiet, max, rw (quiet_read, max_read) refl, quiet_window, max_window)

validate_daemon-debounce :
    (l : Library) (d : DaemonConfig) (b : BuildDebounceConfig) (answer : Bool)
    → d.build_debounce ≡ some b
    → validate_daemon l (some d) ≡ passed answer
    → validate_debounce l b ≡ passed answer
unfolding validate_daemon debounce_checked
validate_daemon-debounce l d b answer is h =
    let (stated, h1) =
      unless-passed (is_empty (l.trim_space d.sync.schedule)) empty_schedule _ answer h in
    let (accepted, h2) =
      unless-passed (not (l.accepts_cron (l.trim_space d.sync.schedule))) invalid_schedule _ answer
        h1 in
    sym (ap (debounce_checked l) is) ∙ h2

-- After the defaults, a daemon has a configuration of debouncing.
defaults_debounce :
    (l : Library) (c : Config) (d : DaemonConfig)
    → (apply_defaults l c).daemon ≡ some d
    → (b : BuildDebounceConfig) × (d.build_debounce ≡ some b)
unfolding apply_defaults
defaults_debounce l c d h = go c.daemon h
  where
    go :
        (o : Option DaemonConfig)
        → daemon_defaults (default_output c.output) o ≡ some d
        → (b : BuildDebounceConfig) × (d.build_debounce ≡ some b)
    go none h = absurd (cc)
    go (some e) h = (
      default_debounce e.build_debounce,
      ap (λ t. t.build_debounce) (sym (some-injective _ _ h)) ∙ (unfold default_daemon in refl),
    )

accepted :
    (quiet max : ℤ)
    → is_pos quiet ≡ true
    → is_pos max ≡ true
    → new_build_debouncer true
        (record { quiet_window = quiet; max_delay = max; poll_interval = pos 0 })
      ≡ some (record { quiet_window = quiet; max_delay = max; poll_interval = pos 250000000 })
unfolding new_build_debouncer
accepted quiet max h k = rw (h, k) refl

-- A daemon's configuration that was loaded gives the debouncer a quiet window and a maximum delay
-- of more than 0 and at most a day each, and NewBuildDebouncer accepts them on a bus.
pub load-windows :
    (l : Library) (c result : Config) (d : DaemonConfig)
    → load l c ≡ passed result
    → result.daemon ≡ some d
    → (quiet max : ℤ) × (get_build_debounce_durations l result.daemon ≡ some (quiet, max))
      × IsWindow quiet
      × IsWindow max
      × (new_build_debouncer true
            (record { quiet_window = quiet; max_delay = max; poll_interval = pos 0 })
          ≡ some (record { quiet_window = quiet; max_delay = max; poll_interval = pos 250000000 }))
unfolding load
load-windows l c result d h is =
    let (versioned, h1) =
      unless-passed (not (str_eq c.version "2.0")) unsupported_version _ result h in
    let full = apply_defaults l (normalize_config l c).0 in
    let valid = validate_config-IsValid l full result h1 in
    let kept : full.daemon ≡ some d = ap (λ t. t.daemon) (sym valid.unchanged) ∙ is in
    let (b, debounce) = defaults_debounce l (normalize_config l c).0 d kept in
    let passes : validate_debounce l b ≡ passed valid.daemon_answer =
      validate_daemon-debounce l d b valid.daemon_answer debounce
        (ap (validate_daemon l) (sym kept) ∙ valid.daemon) in
    let (quiet, max, read, quiet_window, max_window) =
      validate_debounce-durations l b valid.daemon_answer passes in
    (
      quiet,
      max,
      ap (get_build_debounce_durations l) is
          ∙ (unfold get_build_debounce_durations in ap (debounce_durations l) debounce ∙ read),
      quiet_window,
      max_window,
      accepted quiet max quiet_window.positive max_window.positive,
    )
