-- ===== src/Stages/Runner/Tests.antt =====
-- Builds of two stages, and the theorems about stages at concrete inputs.
use docbuilder.Common.{ℕ, ◌≡◌, refl, ◌⊎◌, Bool, true, false, none, some, [], ◌∷◌, ◌==◌}
use docbuilder.Errors.{
  fatal, clone_repos, run_hugo, hugo_error, sentinel, stage_failure, GoError, as_stage_error,
}
use docbuilder.Stages.Outcome.{IsOutcome, derive_outcome-IsOutcome}
use docbuilder.Stages.Runner.Report.{run_stages-failed, EndsWith}
use docbuilder.Stages.Runner.{
  BuildState, StageDef, ended, failed, skipped_rest, run_stages, stage_round, stage_start,
  stage_complete,
}
use docbuilder.Stages.{
  any_canceled, BuildReport, undecided, outcome_failed, outcome_canceled, outcome_success, success,
  derive_outcome, classify_stage_result, same_stage, add_issue, record_stage_result,
}

abbrev blank : BuildReport
blank = record {
  repositories = 1;
  files = 3;
  errors = [];
  warnings = [];
  stage_error_kinds = λ n. none;
  stage_counts = λ n. record { successes = 0; warnings = 0; fatals = 0; cancellations = 0 };
  cloned_repositories = 1;
  failed_repositories = 0;
  retries = 0;
  retries_exhausted = false;
  outcome = undecided;
  issues = [];
  skip_reason = "";
  finished = false;
}

abbrev begin : BuildState
begin = record {
  report = blank;
  all_repos_unchanged = false;
  repo_paths = 1;
  site_valid = true;
  observed = true;
  seen = [];
}

abbrev clone_ok : StageDef
clone_ok = record { name = clone_repos; fn = λ s. (s, none) }

-- The clone stage that finds no new heads.
abbrev clone_unchanged : StageDef
clone_unchanged = record {
  name = clone_repos;
  fn = λ s. (record s { all_repos_unchanged = true }, none);
}

abbrev hugo_failure : GoError
hugo_failure = stage_failure fatal run_hugo (sentinel hugo_error)

abbrev hugo_broken : StageDef
hugo_broken = record { name = run_hugo; fn = λ s. (s, some hugo_failure) }

abbrev always_live : ℕ → Bool
always_live i = false

runner : Unit {0}
unfolding run_stages stage_round classify_stage_result as_stage_error same_stage derive_outcome
    any_canceled add_issue record_stage_result
runner = tt

failing_run :
    (run_stages always_live (clone_ok ∷ hugo_broken ∷ []) begin).0 ≡ ended (failed hugo_failure)
unfolding runner
failing_run = refl

unchanged_run :
    let (r, s) = run_stages always_live (clone_unchanged ∷ hugo_broken ∷ []) begin in
    (r ≡ ended skipped_rest)
    × (s.report.skip_reason ≡ "no_changes")
    × (s.report.outcome ≡ outcome_success)
    × (s.seen ≡ stage_start clone_repos ∷ stage_complete clone_repos success ∷ [])
unfolding runner
unchanged_run = (refl, refl, refl, refl)

-- The context is canceled before the second stage.
canceled_run :
    let (r, s) = run_stages (λ i. i == 1) (clone_ok ∷ hugo_broken ∷ []) begin in
    (derive_outcome s.report).outcome ≡ outcome_canceled
unfolding runner
canceled_run = refl

abbrev after_failure : BuildState
after_failure = (run_stages always_live (clone_ok ∷ hugo_broken ∷ []) begin).1

run_stages-failed_example :
    EndsWith after_failure.report hugo_failure
    × ((derive_outcome after_failure.report).outcome ≡ outcome_failed
        ⊎ ((derive_outcome after_failure.report).outcome ≡ outcome_canceled))
unfolding runner
run_stages-failed_example =
    run_stages-failed always_live (clone_ok ∷ hugo_broken ∷ []) begin after_failure hugo_failure
      refl

derive_outcome-IsOutcome_example :
    IsOutcome after_failure.report (derive_outcome after_failure.report).outcome
derive_outcome-IsOutcome_example = derive_outcome-IsOutcome after_failure.report
