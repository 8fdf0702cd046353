-- ===== src/Stages/Runner/Report.antt =====
-- internal/hugo/stages/runner.go: what the report says of a run that ended with an error.
use docbuilder.Common.{
  ℕ, suc, Bool, true, false, ◌≡◌, ◌⊎◌, inl, inr, refl, subst, Option, none, some, List, [], ◌∷◌,
  ◌++◌, arith, Bool-cases,
}
use docbuilder.Errors.{
  StageErrorKind, fatal, canceled, StageName, GoError, StageError, as_stage_error,
}
use docbuilder.Stages.{
  StageOutcome, severity_error, BuildReport, outcome_failed, outcome_canceled, add_issue,
  record_stage_result, classify_stage_error, classify_found, classify_stage_result, derive_outcome,
}
use docbuilder.Stages.Runner.{
  BuildState, StageDef, RunResult, completed, ended, failed, skipped_rest, Next, go_on, ends,
  cancel_stage, after_stage, stage_round, continue_with, run_loop, run_stages, notify, finish_run,
  stage_start,
}

-- The last error of the report.
pub record EndsWith (r : BuildReport) (e : GoError) : Type 0 where
  pub before : List GoError
  pub last_is : r.errors ≡ before ++ e ∷ []

-- An outcome that aborts has an error, which is recorded as such.
pub record IsAborting (o : StageOutcome) : Type 0 where
  pub cause : StageError
  pub error_is : o.error ≡ some cause
  pub severity_is : o.severity ≡ severity_error

classify_stage_error-IsAborting :
    (n : StageName) (k : StageErrorKind) (se : StageError) (r : BuildReport) (paths : ℕ)
    → se.kind ≡ k
    → (classify_stage_error n se r paths).abort ≡ true
    → IsAborting (classify_stage_error n se r paths)
unfolding classify_stage_error
classify_stage_error-IsAborting n fatal se r paths e h = record {
  cause = se;
  error_is = ground arith;
  severity_is = ground arith;
}
classify_stage_error-IsAborting n canceled se r paths e h = record {
  cause = se;
  error_is = ground arith;
  severity_is = ground arith;
}
classify_stage_error-IsAborting n _ se r paths e h = absurd (ground arith)

classify_stage_result-IsAborting :
    (n : StageName) (err : Option GoError) (r : BuildReport) (paths : ℕ)
    → (classify_stage_result n err r paths).abort ≡ true
    → IsAborting (classify_stage_result n err r paths)
unfolding classify_stage_result
classify_stage_result-IsAborting n none r paths h = cc
classify_stage_result-IsAborting n (some err) r paths h = go (as_stage_error err) h
  where
    go :
        (o : Option StageError)
        → (classify_found n err o r paths).abort ≡ true
        → IsAborting (classify_found n err o r paths)
    go none h = record { cause = _; error_is = refl; severity_is = refl }
    go (some se) h = classify_stage_error-IsAborting n se.kind se r paths refl h

cancel_stage-EndsWith :
    (st : StageDef) (s : BuildState) (e : GoError)
    → (cancel_stage st s).0 ≡ ends (failed e)
    → EndsWith (cancel_stage st s).1.report e
unfolding cancel_stage add_issue record_stage_result
cancel_stage-EndsWith st s e h = record { before = s.report.errors; last_is = ground arith }

after_stage-EndsWith :
    (st : StageDef) (o : StageOutcome) (s : BuildState) (e : GoError)
    → (o.abort ≡ true → IsAborting o)
    → (after_stage st o s).0 ≡ ends (failed e)
    → EndsWith (after_stage st o s).1.report e
unfolding after_stage add_issue record_stage_result
after_stage-EndsWith st o s e a h = elim (Bool-cases o.abort) [
  | inl stop ↦ let c = a stop in record { before = s.report.errors; last_is = ground arith }
  | inr fine ↦ absurd (ground arith)
]

stage_round-EndsWith :
    (c : Bool) (st : StageDef) (s : BuildState) (e : GoError)
    → (stage_round c st s).0 ≡ ends (failed e)
    → EndsWith (stage_round c st s).1.report e
unfolding stage_round
stage_round-EndsWith true st s e h = cancel_stage-EndsWith st s e h
stage_round-EndsWith false st s e h =
    let (s', err) = st.fn (notify (stage_start st.name) s) in
    after_stage-EndsWith st (classify_stage_result st.name err s'.report s'.repo_paths) s' e
      (classify_stage_result-IsAborting st.name err s'.report s'.repo_paths) h

-- What a result says of the state that comes with it.
abbrev Explains : RunResult × BuildState → Type 0
Explains (ended (failed e), s) = EndsWith s.report e
Explains (_, s) = Unit

run_loop-Explains :
    (done : ℕ → Bool) (i : ℕ) (stages : List StageDef) (s : BuildState)
    → Explains (run_loop done i stages s)
unfolding run_loop
run_loop-Explains done i [] s = tt
run_loop-Explains done i (st ∷ rest) s =
    go (stage_round (done i) st s) (λ e. stage_round-EndsWith (done i) st s e)
      (run_loop-Explains done (suc i) rest)
  where
    go :
        (n : Next × BuildState)
        → ((e : GoError) → n.0 ≡ ends (failed e) → EndsWith n.1.report e)
        → ((t : BuildState) → Explains (run_loop done (suc i) rest t))
        → Explains (continue_with n (run_loop done (suc i) rest))
    go (go_on, t) last ih = ih t
    go (ends (failed e), t) last ih = last e refl
    go (ends skipped_rest, t) last ih = tt

run_stages-Explains :
    (done : ℕ → Bool) (stages : List StageDef) (s : BuildState)
    → Explains (run_stages done stages s)
unfolding run_stages
run_stages-Explains done stages s =
    go (run_loop done 0 stages s) (run_loop-Explains done 0 stages s)
  where
    go : (p : RunResult × BuildState) → Explains p → Explains (finish_run p.0 p.1)
    go (completed, t) h = tt
    go (ended (failed e), t) h = h
    go (ended skipped_rest, t) h = tt

not-success :
    (r : BuildReport) (e : GoError)
    → EndsWith r e
    → (derive_outcome r).outcome ≡ outcome_failed ⊎ ((derive_outcome r).outcome ≡ outcome_canceled)
unfolding derive_outcome
not-success r e h = go h.before h.last_is
  where
    go :
        (before : List GoError)
        → r.errors ≡ before ++ e ∷ []
        → (derive_outcome r).outcome ≡ outcome_failed
          ⊎ ((derive_outcome r).outcome ≡ outcome_canceled)
    go [] l = ground arith
    go (x ∷ before) l = ground arith

-- When `RunStages` returns an error, whatever the stages do: that error is the last one that the
-- report holds, and the outcome derived from the report is failed or canceled.
pub run_stages-failed :
    (done : ℕ → Bool) (stages : List StageDef) (s s' : BuildState) (e : GoError)
    → run_stages done stages s ≡ (ended (failed e), s')
    → EndsWith s'.report e
      × ((derive_outcome s'.report).outcome ≡ outcome_failed
          ⊎ ((derive_outcome s'.report).outcome ≡ outcome_canceled))
run_stages-failed done stages s s' e h =
    let last : EndsWith s'.report e = subst Explains h (run_stages-Explains done stages s) in
    (last, not-success s'.report e last)
