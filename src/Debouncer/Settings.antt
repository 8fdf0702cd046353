-- ===== src/Debouncer/Settings.antt =====
-- internal/daemon/build_debouncer.go: the durations that NewBuildDebouncer accepts.
use docbuilder.Common.{Bool, true, false, Option, none, some, if◌then◌else◌}
use docbuilder.Common.Int.{ℤ, pos, is_pos}

-- The durations of a BuildDebouncerConfig, in nanoseconds
pub record Settings : Type 0 where
  pub quiet_window : ℤ
  pub max_delay : ℤ
  pub poll_interval : ℤ

-- NewBuildDebouncer, given whether there is a bus; `none` is a validation error.
unfoldable pub new_build_debouncer : Bool → Settings → Option Settings
new_build_debouncer false s = none
new_build_debouncer true s =
    let polls = if is_pos s.poll_interval then s.poll_interval else pos 250000000 in
    if is_pos s.quiet_window
    then if is_pos s.max_delay then some (record s { poll_interval = polls }) else none
    else none
