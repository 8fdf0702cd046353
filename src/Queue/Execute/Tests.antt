-- ===== src/Queue/Execute/Tests.antt =====
-- Runs of `executeBuild` on a builder whose clone fails twice, and the theorems about it.
use docbuilder.Common.{
  ℕ, zero, suc, ◌-◌, ◌*◌, ◌^◌, ◌<◌, Bool, true, false, ◌≡◌, refl, none, some, List, [], ◌∷◌, arith,
}
use docbuilder.Common.Int.{pos, pos_part, mul64}
use docbuilder.Errors.{
  GoError, sentinel, clone_error, stage_failure, fatal, clone_repos, as_stage_error, transient,
}
use docbuilder.Retry.{second, thirty_seconds, default_policy, delay}
use docbuilder.Retry.Bounds.{IsUsable, growth}
use docbuilder.Stages.{BuildReport, undecided}
use docbuilder.Queue.Execute.{
  BuildOutput, find_transient_error, should_stop_retrying, build_retry, retry_exhausted,
  before_first, turn, attempts_loop, effective, execute_build,
}
use docbuilder.Queue.Execute.Run.{IsRun, execute_build-IsRun}

abbrev pub failure : GoError
failure = stage_failure fatal clone_repos (sentinel clone_error)

abbrev pub report_of : List GoError → BuildReport
report_of errors = record {
  repositories = 1;
  files = 3;
  errors = errors;
  warnings = [];
  stage_error_kinds = λ n. none;
  stage_counts = λ n. record { successes = 0; warnings = 0; fatals = 0; cancellations = 0 };
  cloned_repositories = 1;
  failed_repositories = 0;
  retries = 0;
  retries_exhausted = false;
  outcome = undecided;
  issues = [];
  skip_reason = "";
  finished = true;
}

-- Fails before call n.
abbrev pub flaky : ℕ → ℕ → BuildOutput
flaky zero i = record { report = some (report_of []); error = none }
flaky (suc n) zero = record { report = some (report_of (failure ∷ [])); error = some failure }
flaky (suc n) (suc i) = flaky n i

abbrev pub never_canceled : ℕ → Bool
never_canceled i = false

loop : Unit {0}
unfolding execute_build attempts_loop turn find_transient_error as_stage_error transient
    should_stop_retrying effective default_policy delay mul64
loop = tt

third_time_lucky :
    execute_build 3 (flaky 2) never_canceled default_policy none
    ≡ some (
      none,
      record {
        retries = 2;
        kept = some (record (report_of []) { retries = 2 });
        waits = pos 1000000000 ∷ pos 2000000000 ∷ [];
        metrics = build_retry clone_repos ∷ build_retry clone_repos ∷ [];
      },
    )
unfolding loop
third_time_lucky = refl

exhausted :
    execute_build 3 (flaky 3) never_canceled default_policy none
    ≡ some (
      some failure,
      record {
        retries = 2;
        kept = some (record (report_of (failure ∷ [])) { retries = 2; retries_exhausted = true });
        waits = pos 1000000000 ∷ pos 2000000000 ∷ [];
        metrics =
            build_retry clone_repos ∷ build_retry clone_repos ∷ retry_exhausted clone_repos ∷ [];
      },
    )
unfolding loop
exhausted = refl

execute_build-IsRun_example :
    IsRun (flaky 2) never_canceled (effective default_policy) (before_first none) (
      execute_build
        (suc (pos_part (effective default_policy).max_retries))
        (flaky 2)
        never_canceled
        default_policy
        none)
execute_build-IsRun_example = execute_build-IsRun (flaky 2) never_canceled default_policy none

usable : IsUsable (effective default_policy) second thirty_seconds
unfolding effective default_policy
usable = record { initial_is = refl; max_is = refl; first_pos = omega arith; ordered = omega arith }

fits :
    second
      * growth (effective default_policy).mode (pos_part (effective default_policy).max_retries - 1)
    < 2 ^ 63
unfolding effective default_policy growth
fits = omega arith
