-- ===== src/Queue/Execute.antt =====
-- internal/build/queue/build_queue.go: `executeBuild`, the attempts of one job. The builder is a
-- parameter, given by what its call number n returns; so is whether the wait before call n is cut
-- short by the job's context. The report that the job keeps is the one it shares with the caller.
pub mod Waits
pub mod Run
pub mod Tests
use Prim.Native.String.{String}
use docbuilder.Common.{
  ℕ, zero, suc, ◌+◌, Bool, true, false, not, ◌||◌, Option, none, some, List, [], ◌∷◌, ◌++◌,
  if◌then◌else◌, ltb,
}
use docbuilder.Common.Int.{ℤ, pos, is_pos, lt_ℤ}
use docbuilder.Common.Text.{is_empty}
use docbuilder.Errors.{
  GoError, plain, StageError, StageName, other_stage, as_stage_error, transient,
}
use docbuilder.Retry.{Policy, default_policy, delay}
use docbuilder.Stages.{BuildReport}

-- What a call of the builder returns.
pub record BuildOutput : Type 0 where
  pub report : Option BuildReport
  pub error : Option GoError

-- A call on the metrics recorder
pub data Metric : Type 0 where
  build_retry retry_exhausted : StageName → Metric

-- The variables of the loop: `attempts` calls are done, each but the first after a wait.
pub record Attempts : Type 0 where
  pub retries : ℕ
  pub kept : Option BuildReport
  pub waits : List ℤ
  pub metrics : List Metric

pub data Turn : Type 0 where
  return : Option GoError → Attempts → Turn
  again : Attempts → Turn

transient_stage : Option StageError → Option StageName
transient_stage none = none
transient_stage (some se) = if transient se then some se.stage else none

first_stage : Option StageName → Option StageName → Option StageName
first_stage none other = other
first_stage (some s) other = some s

-- The loop of `findTransientError`
first_transient : List GoError → Option StageName
unfolding transient_stage first_stage
first_transient [] = none
first_transient (e ∷ es) = first_stage (transient_stage (as_stage_error e)) (first_transient es)

-- findTransientError: the stage of the first transient error
unfoldable pub find_transient_error : Option BuildReport → Option StageName
unfolding first_transient
find_transient_error none = none
find_transient_error (some r) = first_transient r.errors

is_some {ℓ} : {A : Type ℓ} → Option A → Bool
is_some none = false
is_some (some x) = true

-- shouldStopRetrying
unfoldable pub should_stop_retrying : Bool → ℕ → ℤ → Bool
should_stop_retrying passing retries max_retries =
    not passing || not (lt_ℤ (pos retries) max_retries)

stage_is_empty : StageName → Bool
stage_is_empty (other_stage s) = is_empty s
stage_is_empty _ = false

meter : (StageName → Metric) → Option StageName → List Metric → List Metric
unfolding stage_is_empty
meter m none ms = ms
meter m (some s) ms = if stage_is_empty s then ms else ms ++ m s ∷ []

exhaust_report : ℕ → Option BuildReport → Option BuildReport
exhaust_report n none = none
exhaust_report n (some r) = some (record r { retries = n; retries_exhausted = true })

-- `if report != nil { EnsureTypedMeta(job).BuildReport = report }`
keep : Option BuildReport → Option BuildReport → Option BuildReport
keep none old = old
keep (some r) old = some r

-- handleRetriesExhausted
handle_retries_exhausted : Option BuildReport → Option StageName → Attempts → Attempts
unfolding exhaust_report keep meter is_some
handle_retries_exhausted report stage s =
    if not (is_some stage) || not (ltb 0 s.retries) then s else record s {
      kept = keep (exhaust_report s.retries report) s.kept;
      metrics = meter retry_exhausted stage s.metrics;
    }

count_retries : ℕ → Option BuildReport → Option BuildReport
count_retries n none = none
count_retries n (some r) = some (if ltb 0 n then record r { retries = n } else r)

-- ctx.Err()
abbrev pub context_canceled : GoError
context_canceled = plain "context canceled"

-- The wait for the next attempt
wait : Policy → Bool → Option StageName → Attempts → Turn
unfolding meter
wait p is_canceled stage s =
    let n = suc s.retries in
    let s' = record s {
      retries = n;
      metrics = meter build_retry stage s.metrics;
      waits = s.waits ++ delay p (pos n) ∷ [];
    } in
    if is_canceled then return (some context_canceled) s' else again s'

-- The rest of a turn, after the report is kept
after_build :
    Policy → Bool → Option StageName → Option BuildReport → Option GoError → Attempts → Turn
unfolding count_retries keep wait handle_retries_exhausted is_some
after_build p is_canceled stage report none s =
    return none (record s { kept = keep (count_retries s.retries report) s.kept })
after_build p is_canceled stage report (some e) s =
    if should_stop_retrying (is_some stage) s.retries p.max_retries
    then return (some e) (handle_retries_exhausted report stage s)
    else wait p is_canceled stage s

-- A turn of the loop in `executeBuild`
pub turn : (ℕ → BuildOutput) → (ℕ → Bool) → Policy → Attempts → Turn
unfolding keep after_build
turn builder is_canceled p s =
    let out = builder s.retries in
    after_build p (is_canceled (suc s.retries)) (find_transient_error out.report) out.report
      out.error (record s { kept = keep out.report s.kept })

resume : (Attempts → Option (Option GoError × Attempts)) → Turn → Option (Option GoError × Attempts)
resume rest (return err s) = some (err, s)
resume rest (again s) = rest s

-- The loop in `executeBuild`, `none` when the fuel is used up
pub attempts_loop :
    ℕ → (ℕ → BuildOutput) → (ℕ → Bool) → Policy → Attempts → Option (Option GoError × Attempts)
unfolding resume
attempts_loop zero builder is_canceled p s = none
attempts_loop (suc fuel) builder is_canceled p s =
    resume (attempts_loop fuel builder is_canceled p) (turn builder is_canceled p s)

-- The policy that `executeBuild` uses
unfoldable pub effective : Policy → Policy
effective p = if is_pos p.initial then p else default_policy

abbrev pub before_first : Option BuildReport → Attempts
before_first old = record { retries = 0; kept = old; waits = []; metrics = [] }

-- executeBuild, for a job that keeps the report `old`
pub execute_build :
    ℕ
    → (ℕ → BuildOutput)
    → (ℕ → Bool)
    → Policy
    → Option BuildReport
    → Option (Option GoError × Attempts)
execute_build fuel builder is_canceled p old =
    attempts_loop fuel builder is_canceled (effective p) (before_first old)
