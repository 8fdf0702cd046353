-- ===== src/Stages.antt =====
-- internal/hugo/models/{report,stages,early_skip}.go and internal/hugo/stages/{classification,
-- runner}.go: the stages of a site build, the report that they fill, and how a stage's error is
-- classified. A map keyed by stage names is a function, and a message is the error that it prints.
pub mod Classify
pub mod Outcome
pub mod Runner
use Prim.Native.String.{String}
use docbuilder.Common.{
  ℕ, suc, Bool, true, false, not, ◌&&◌, ◌||◌, Option, none, some, List, [], ◌∷◌, ◌++◌,
  if◌then◌else◌, ◌==◌, ltb,
}
use docbuilder.Common.Text.{str_eq}
use docbuilder.Errors.{
  clone_error, discovery_error, StageErrorKind, fatal, warning, canceled, other_kind, StageName,
  prepare_output, clone_repos, discover_docs, generate_config, layouts, copy_content, indexes,
  run_hugo, post_process, other_stage, GoError, StageError, is_sentinel, as_stage_error, to_error,
  is_canceled, is_fatal, is_warning, transient,
}

-- models.StageResult
pub data StageResult : Type 0 where
  success warned fatally stopped skipped : StageResult

-- models.IssueSeverity; `no_severity` is the empty text.
pub data IssueSeverity : Type 0 where
  severity_error severity_warning no_severity : IssueSeverity

-- models.ReportIssueCode: those that the classification uses
pub data ReportIssueCode : Type 0 where
  no_code clone_failure partial_clone discovery_failure no_repositories hugo_execution
        build_canceled all_clones_failed generic_stage_error :
      ReportIssueCode

-- models.ReportIssue
pub record ReportIssue : Type 0 where
  pub code : ReportIssueCode
  pub stage : StageName
  pub severity : IssueSeverity
  pub message : GoError
  pub transient : Bool

-- models.StageCount
pub record StageCount : Type 0 where
  pub successes : ℕ
  pub warnings : ℕ
  pub fatals : ℕ
  pub cancellations : ℕ

-- models.BuildOutcome; `undecided` is the empty text.
pub data BuildOutcome : Type 0 where
  undecided outcome_success outcome_warning outcome_failed outcome_canceled : BuildOutcome

-- models.BuildReport: the fields that the runner and the queue use
pub record BuildReport : Type 0 where
  pub repositories : ℕ
  pub files : ℕ
  pub errors : List GoError
  pub warnings : List GoError
  pub stage_error_kinds : StageName → Option StageErrorKind
  pub stage_counts : StageName → StageCount
  pub cloned_repositories : ℕ
  pub failed_repositories : ℕ
  pub retries : ℕ
  pub retries_exhausted : Bool
  pub outcome : BuildOutcome
  pub issues : List ReportIssue
  pub skip_reason : String
  pub finished : Bool

-- Equality of stage names, which are texts.
unfoldable pub same_stage : StageName → StageName → Bool
same_stage prepare_output prepare_output = true
same_stage clone_repos clone_repos = true
same_stage discover_docs discover_docs = true
same_stage generate_config generate_config = true
same_stage layouts layouts = true
same_stage copy_content copy_content = true
same_stage indexes indexes = true
same_stage run_hugo run_hugo = true
same_stage post_process post_process = true
same_stage (other_stage s) (other_stage t) = str_eq s t
same_stage _ _ = false

-- m[k] = v
abbrev pub update {ℓ} : {V : Type ℓ} → (StageName → V) → StageName → V → StageName → V
update m k v j = if same_stage k j then v else m j

-- AddIssue
unfoldable pub add_issue :
    ReportIssueCode
    → StageName
    → IssueSeverity
    → GoError
    → Bool
    → Option GoError
    → BuildReport
    → BuildReport
add_issue code stage severity msg passing err r =
    let issue : ReportIssue = record {
      code = code;
      stage = stage;
      severity = severity;
      message = msg;
      transient = passing;
    } in
    let issues' = r.issues ++ issue ∷ [] in
    elim err [
      | none ↦ record r { issues = issues' }
      | some e ↦ elim severity [
        | severity_error ↦ record r { issues = issues'; errors = r.errors ++ e ∷ [] }
        | severity_warning ↦ record r { issues = issues'; warnings = r.warnings ++ e ∷ [] }
        | no_severity ↦ record r { issues = issues' }
      ]
    ]

abbrev pub count_result : StageResult → StageCount → StageCount
count_result success c = record c { successes = suc c.successes }
count_result warned c = record c { warnings = suc c.warnings }
count_result fatally c = record c { fatals = suc c.fatals }
count_result stopped c = record c { cancellations = suc c.cancellations }
count_result skipped c = c

-- RecordStageResult, less the metrics recorder
unfoldable pub record_stage_result : StageName → StageResult → BuildReport → BuildReport
record_stage_result n res r = record r {
  stage_counts = update r.stage_counts n (count_result res (r.stage_counts n));
}

-- The test of `DeriveOutcome` on what `errors.As` finds in one error.
abbrev pub cancels : Option StageError → Bool
cancels none = false
cancels (some se) = is_canceled se.kind

-- The loop of `DeriveOutcome` over the errors.
unfoldable pub any_canceled : List GoError → Bool
any_canceled [] = false
any_canceled (e ∷ es) =
    let rest = any_canceled es in if cancels (as_stage_error e) then true else rest

abbrev is_nil : List GoError → Bool
is_nil [] = true
is_nil (_ ∷ _) = false

-- DeriveOutcome
unfoldable pub derive_outcome : BuildReport → BuildReport
derive_outcome r =
    let decided =
      if not (is_nil r.errors)
      then if any_canceled r.errors then outcome_canceled else outcome_failed
      else if not (is_nil r.warnings)
      then outcome_warning
      else outcome_success in
    record r { outcome = decided }

-- StageOutcome
pub record StageOutcome : Type 0 where
  pub stage : StageName
  pub error : Option StageError
  pub result : StageResult
  pub issue_code : ReportIssueCode
  pub severity : IssueSeverity
  pub transient : Bool
  pub abort : Bool

-- resultFromStageErrorKind
abbrev pub result_from_kind : StageErrorKind → StageResult
result_from_kind warning = warned
result_from_kind canceled = stopped
result_from_kind fatal = fatally
result_from_kind (other_kind _) = fatally

-- severityFromStageErrorKind
abbrev pub severity_from_kind : StageErrorKind → IssueSeverity
severity_from_kind k = if is_warning k then severity_warning else severity_error

-- classifyCloneIssue
classify_clone_issue : StageError → BuildReport → ReportIssueCode
classify_clone_issue se r =
    if not (is_sentinel clone_error se.err)
    then clone_failure
    else if r.cloned_repositories == 0
    then all_clones_failed
    else if ltb 0 r.failed_repositories
    then partial_clone
    else clone_failure

-- classifyDiscoveryIssue; `paths` is len(bs.Git.RepoPaths)
classify_discovery_issue : StageError → ℕ → ReportIssueCode
classify_discovery_issue se paths =
    if not (is_sentinel discovery_error se.err)
    then discovery_failure
    else if paths == 0
    then no_repositories
    else discovery_failure

-- classifyIssueCode
classify_issue_code : StageName → StageError → BuildReport → ℕ → ReportIssueCode
unfolding classify_clone_issue classify_discovery_issue
classify_issue_code clone_repos se r paths = classify_clone_issue se r
classify_issue_code discover_docs se r paths = classify_discovery_issue se paths
classify_issue_code run_hugo se r paths = hugo_execution
classify_issue_code _ se r paths = generic_stage_error

build_fatal_outcome : StageName → StageError → StageOutcome
build_fatal_outcome n se = record {
  stage = n;
  error = some se;
  result = fatally;
  issue_code = generic_stage_error;
  severity = severity_error;
  transient = false;
  abort = true;
}

build_canceled_outcome : StageName → StageError → StageOutcome
build_canceled_outcome n se = record {
  stage = n;
  error = some se;
  result = result_from_kind se.kind;
  issue_code = build_canceled;
  severity = severity_from_kind se.kind;
  transient = transient se;
  abort = true;
}

classify_stage_error : StageName → StageError → BuildReport → ℕ → StageOutcome
unfolding build_canceled_outcome classify_issue_code
classify_stage_error n se r paths =
    if is_canceled se.kind then build_canceled_outcome n se else record {
      stage = n;
      error = some se;
      result = result_from_kind se.kind;
      issue_code = classify_issue_code se.stage se r paths;
      severity = severity_from_kind se.kind;
      transient = transient se;
      abort = is_fatal se.kind || is_canceled se.kind;
    }

success_outcome : StageName → StageOutcome
success_outcome n = record {
  stage = n;
  error = none;
  result = success;
  issue_code = no_code;
  severity = no_severity;
  transient = false;
  abort = false;
}

-- What `ClassifyStageResult` makes of what `errors.As` finds: no *StageError is fatal.
classify_found : StageName → GoError → Option StageError → BuildReport → ℕ → StageOutcome
unfolding build_fatal_outcome classify_stage_error
classify_found n err none r paths =
    build_fatal_outcome n (record { kind = fatal; stage = n; err = err })
classify_found n err (some se) r paths = classify_stage_error n se r paths

-- ClassifyStageResult
pub classify_stage_result : StageName → Option GoError → BuildReport → ℕ → StageOutcome
unfolding success_outcome classify_found
classify_stage_result n none r paths = success_outcome n
classify_stage_result n (some err) r paths = classify_found n err (as_stage_error err) r paths
