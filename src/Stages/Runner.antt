-- ===== src/Stages/Runner.antt =====
-- internal/hugo/stages/runner.go: the stages run in order, and the first that aborts ends the run.
-- A stage is a function on the build state; `done i` tells whether the context is canceled when it
-- is looked at before stage i. Durations and the metrics recorder are left out.
pub mod Order
pub mod Report
mod Tests
use Prim.Native.String.{String}
use docbuilder.Common.{
  ℕ, suc, Bool, true, false, not, ◌&&◌, Option, none, some, List, [], ◌∷◌, ◌++◌, if◌then◌else◌,
}
use docbuilder.Errors.{
  canceled, StageErrorKind, StageName, clone_repos, GoError, plain, StageError, to_error,
}
use docbuilder.Stages.{
  StageResult, stopped, severity_error, build_canceled, BuildReport, StageOutcome, same_stage,
  update, add_issue, record_stage_result, derive_outcome, classify_stage_result,
}

-- The calls on the build observer.
pub data ObserverCall : Type 0 where
  stage_start : StageName → ObserverCall
  stage_complete : StageName → StageResult → ObserverCall
  build_complete : ObserverCall

-- models.BuildState: `repo_paths` is len(bs.Git.RepoPaths), `site_valid` the answer of the
-- generator's ExistingSiteValidForSkip, and `observed` tells whether there is an observer.
pub record BuildState : Type 0 where
  pub report : BuildReport
  pub all_repos_unchanged : Bool
  pub repo_paths : ℕ
  pub site_valid : Bool
  pub observed : Bool
  pub seen : List ObserverCall

-- models.StageDef
pub record StageDef : Type 0 where
  pub name : StageName
  pub fn : BuildState → BuildState × Option GoError

-- How `RunStages` ends before its last stage: after the clone stage, or with an error.
pub data Ending : Type 0 where
  skipped_rest : Ending
  failed : GoError → Ending

pub data RunResult : Type 0 where
  completed : RunResult
  ended : Ending → RunResult

-- Whether the loop goes on to the next stage.
pub data Next : Type 0 where
  go_on : Next
  ends : Ending → Next

pub notify : ObserverCall → BuildState → BuildState
notify c s = record s { seen = if s.observed then s.seen ++ c ∷ [] else s.seen }

-- bs.Report.StageErrorKinds[n] = kind
note_kind : StageName → StageErrorKind → BuildReport → BuildReport
note_kind n k r = record r { stage_error_kinds = update r.stage_error_kinds n (some k) }

-- The case of a context that is done.
cancel_stage : StageDef → BuildState → Next × BuildState
unfolding note_kind notify
cancel_stage st s =
    let se : StageError = record {
      kind = canceled;
      stage = st.name;
      err = plain "context canceled";
    } in
    let r = note_kind st.name canceled s.report in
    let r' =
      add_issue build_canceled st.name severity_error (to_error se) false (some (to_error se)) r in
    let s' = record s { report = record_stage_result st.name stopped r' } in
    (ends (failed (to_error se)), notify (stage_complete st.name stopped) s')

-- if out.Error != nil { ... }
record_error : StageName → StageOutcome → Option StageError → BuildReport → BuildReport
unfolding note_kind
record_error n out none r = r
record_error n out (some se) r =
    add_issue out.issue_code out.stage out.severity (to_error se) out.transient (some (to_error se))
      (note_kind n se.kind r)

-- The error that an aborted run returns.
abbrev abort_error : Option StageError → GoError
abort_error none = plain "stage aborted"
abort_error (some se) = to_error se

-- The build ends early: the heads are unchanged and the site is valid.
skip_rest : BuildState → Next × BuildState
skip_rest s =
    let r = derive_outcome (record s.report { skip_reason = "no_changes" }) in
    (ends skipped_rest, record s { report = record r { finished = true } })

-- What follows from the outcome of a stage.
after_stage : StageDef → StageOutcome → BuildState → Next × BuildState
unfolding record_error notify skip_rest
after_stage st out s =
    let r = record_stage_result st.name out.result (record_error st.name out out.error s.report) in
    let s' = notify (stage_complete st.name out.result) (record s { report = r }) in
    if out.abort
    then (ends (failed (abort_error out.error)), s')
    else if same_stage st.name clone_repos && s'.all_repos_unchanged && s'.site_valid
    then skip_rest s'
    else (go_on, s')

-- One round of the loop.
pub stage_round : Bool → StageDef → BuildState → Next × BuildState
unfolding cancel_stage after_stage notify
stage_round true st s = cancel_stage st s
stage_round false st s =
    let (s', err) = st.fn (notify (stage_start st.name) s) in
    after_stage st (classify_stage_result st.name err s'.report s'.repo_paths) s'

abbrev continue_with :
    Next × BuildState → (BuildState → RunResult × BuildState) → RunResult × BuildState
continue_with (go_on, s) f = f s
continue_with (ends r, s) f = (ended r, s)

-- The loop, from stage i on.
pub run_loop : (ℕ → Bool) → ℕ → List StageDef → BuildState → RunResult × BuildState
run_loop done i [] s = (completed, s)
run_loop done i (st ∷ rest) s =
    continue_with (stage_round (done i) st s) (run_loop done (suc i) rest)

finish_run : RunResult → BuildState → RunResult × BuildState
finish_run completed s = (completed, notify build_complete s)
finish_run (ended r) s = (ended r, s)

-- RunStages
pub run_stages : (ℕ → Bool) → List StageDef → BuildState → RunResult × BuildState
unfolding run_loop finish_run
run_stages done stages s = let (r, s') = run_loop done 0 stages s in finish_run r s'
