-- ===== src/Stages/Classify.antt =====
-- internal/hugo/stages/classification.go: the fields of a stage's outcome agree with one another.
use docbuilder.Common.{ℕ, true, false, ◌≡◌, ◌⊎◌, ◌↔◌, refl, Option, none, some, arith}
use docbuilder.Errors.{
  StageErrorKind, fatal, warning, canceled, other_kind, StageName, GoError, StageError,
  as_stage_error, transient,
}
use docbuilder.Stages.{
  success, warned, fatally, stopped, severity_warning, BuildReport, StageOutcome,
  classify_stage_error, classify_found, classify_stage_result,
}

-- The kinds that have a name.
abbrev pub IsNamed : StageErrorKind → Type 0
IsNamed (other_kind _) = ⊥
IsNamed _ = Unit

-- A stage error that `errors.As` finds has a named kind.
abbrev pub HasNamedKind : Option StageError → Type 0
HasNamedKind none = Unit
HasNamedKind (some se) = IsNamed se.kind

abbrev pub found : Option GoError → Option StageError
found none = none
found (some e) = as_stage_error e

pub record IsConsistent (o : StageOutcome) : Type 0 where
  pub aborts : (o.abort ≡ true) ↔ ((o.result ≡ fatally) ⊎ (o.result ≡ stopped))
  pub warns : (o.severity ≡ severity_warning) ↔ (o.result ≡ warned)
  pub succeeds : (o.error ≡ none) ↔ (o.result ≡ success)
  pub final_cancel : o.result ≡ stopped → o.transient ≡ false

classify_stage_error-IsConsistent :
    (n : StageName) (k : StageErrorKind) (se : StageError) (r : BuildReport) (paths : ℕ)
    → se.kind ≡ k
    → IsNamed k
    → IsConsistent (classify_stage_error n se r paths)
unfolding classify_stage_error transient
classify_stage_error-IsConsistent n fatal se r paths e h = ground arith
classify_stage_error-IsConsistent n warning se r paths e h = ground arith
classify_stage_error-IsConsistent n canceled se r paths e h = ground arith
classify_stage_error-IsConsistent n (other_kind t) se r paths e h = absurd h

classify_found-IsConsistent :
    (n : StageName) (err : GoError) (o : Option StageError) (r : BuildReport) (paths : ℕ)
    → HasNamedKind o
    → IsConsistent (classify_found n err o r paths)
unfolding classify_found
classify_found-IsConsistent n err none r paths h = ground arith
classify_found-IsConsistent n err (some se) r paths h =
    classify_stage_error-IsConsistent n se.kind se r paths refl h

-- For every error of a stage whose kind is a named one: the outcome aborts exactly when its result
-- is fatal or canceled, its issue is a warning exactly when its result is, it has no error exactly
-- when the stage succeeded, and a canceled stage never counts as transient.
pub classify_stage_result-IsConsistent :
    (n : StageName) (err : Option GoError) (r : BuildReport) (paths : ℕ)
    → HasNamedKind (found err)
    → IsConsistent (classify_stage_result n err r paths)
unfolding classify_stage_result
classify_stage_result-IsConsistent n none r paths h = ground arith
classify_stage_result-IsConsistent n (some err) r paths h =
    classify_found-IsConsistent n err (as_stage_error err) r paths h
