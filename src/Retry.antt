-- ===== src/Retry.antt =====
-- internal/retry/policy.go: the backoff policy of the build queue, over int64 durations.
pub mod Bounds
mod Tests
use docbuilder.Common.{ℕ, zero, suc, not, Option, none, some, if◌then◌else◌}
use docbuilder.Common.Int.{ℤ, pos, negsuc, lt_ℤ, is_pos, is_neg, mul64, one_shl64}

-- config.RetryBackoffMode is a string: `unset` is "", `unknown` any other text.
pub data RetryBackoffMode : Type 0 where
  unset fixed linear exponential unknown : RetryBackoffMode

pub record Policy : Type 0 where
  pub mode : RetryBackoffMode
  pub initial : ℤ
  pub max : ℤ
  pub max_retries : ℤ

-- time.Second, in nanoseconds.
abbrev pub second : ℕ
second = 1000000000

abbrev pub thirty_seconds : ℕ
thirty_seconds = 30000000000

unfoldable pub default_policy : Policy
default_policy = record {
  mode = linear;
  initial = pos second;
  max = pos thirty_seconds;
  max_retries = pos 2;
}

-- The `switch` on a mode that is not empty: an unknown one keeps the default.
abbrev pub choose_mode : RetryBackoffMode → RetryBackoffMode → RetryBackoffMode
choose_mode fixed m = fixed
choose_mode linear m = linear
choose_mode exponential m = exponential
choose_mode unset m = m
choose_mode unknown m = m

unfoldable pub new_policy : RetryBackoffMode → ℤ → ℤ → ℤ → Policy
unfolding default_policy
new_policy mode initial max_duration max_retries =
    let d = default_policy in
    let retries = if is_neg max_retries then d.max_retries else max_retries in
    let first = if is_pos initial then initial else d.initial in
    let top = if is_pos max_duration then max_duration else d.max in
    record {
      mode = choose_mode mode d.mode;
      initial = if lt_ℤ top first then top else first;
      max = top;
      max_retries = retries;
    }

-- if d > p.Max { return p.Max }; return d
abbrev pub cap_at : ℤ → ℤ → ℤ
cap_at top d = if lt_ℤ top d then top else d

-- The `switch` of `Delay`, for a count k + 1.
abbrev pub delay_by : RetryBackoffMode → Policy → ℕ → ℤ
delay_by fixed p k = p.initial
delay_by exponential p k = cap_at p.max (mul64 p.initial (one_shl64 k))
delay_by linear p k = cap_at p.max (mul64 (pos (suc k)) p.initial)
delay_by unset p k = cap_at p.max (mul64 (pos (suc k)) p.initial)
delay_by unknown p k = cap_at p.max (mul64 (pos (suc k)) p.initial)

-- Policy.Delay
unfoldable pub delay : Policy → ℤ → ℤ
delay p (negsuc n) = pos 0
delay p (pos zero) = pos 0
delay p (pos (suc k)) = delay_by p.mode p k

pub data PolicyError : Type 0 where
  initial_not_positive max_not_positive negative_retries : PolicyError

-- Policy.Validate
unfoldable pub validate : Policy → Option PolicyError
validate p =
    if not (is_pos p.initial)
    then some initial_not_positive
    else if not (is_pos p.max)
    then some max_not_positive
    else if is_neg p.max_retries
    then some negative_retries
    else none
