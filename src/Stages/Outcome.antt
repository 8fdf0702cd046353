-- ===== src/Stages/Outcome.antt =====
-- internal/hugo/models/report.go: what `DeriveOutcome` decides.
use docbuilder.Common.{
  Bool, true, false, ◌≡◌, ◌≢◌, inl, inr, refl, ap, Option, none, some, List, [], ◌∷◌, ◌++◌, arith,
  Bool-cases, All,
}
use docbuilder.Errors.{canceled, GoError, StageError, as_stage_error}
use docbuilder.Stages.{
  BuildOutcome, outcome_success, outcome_warning, outcome_failed, outcome_canceled, BuildReport,
  cancels, any_canceled, derive_outcome,
}

-- The first *StageError that `errors.As` finds in the error is a canceled one.
abbrev pub IsCancellation : GoError → Type 0
IsCancellation e = (se : StageError) × (as_stage_error e ≡ some se) × (se.kind ≡ canceled)

-- What the outcome says of the errors and the warnings recorded.
pub data IsOutcome (r : BuildReport) (o : BuildOutcome) : Type 0 where
  was_canceled :
      (before : List GoError) (e : GoError) (after : List GoError)
      → r.errors ≡ before ++ e ∷ after
      → IsCancellation e
      → o ≡ outcome_canceled
      → IsOutcome r o
  has_failed :
      r.errors ≢ [] → All (λ e. ¬ IsCancellation e) r.errors → o ≡ outcome_failed → IsOutcome r o
  has_warned : r.errors ≡ [] → r.warnings ≢ [] → o ≡ outcome_warning → IsOutcome r o
  is_clean : r.errors ≡ [] → r.warnings ≡ [] → o ≡ outcome_success → IsOutcome r o

record HasCancellation (es : List GoError) : Type 0 where
  before : List GoError
  error : GoError
  after : List GoError
  splits : es ≡ before ++ error ∷ after
  cancels : IsCancellation error

abbrev Scan : List GoError → Bool → Type 0
Scan es true = HasCancellation es
Scan es false = All (λ e. ¬ IsCancellation e) es

Scan-cons :
    (e : GoError) (es : List GoError) (b : Bool) → ¬ IsCancellation e → Scan es b → Scan (e ∷ es) b
Scan-cons e es true n h = record {
  before = e ∷ h.before;
  error = h.error;
  after = h.after;
  splits = ap (λ t. e ∷ t) h.splits;
  cancels = h.cancels;
}
Scan-cons e es false n h = (n, h)

cancels-IsCancellation :
    (e : GoError) (o : Option StageError)
    → as_stage_error e ≡ o
    → cancels o ≡ true
    → IsCancellation e
cancels-IsCancellation e none f h = cc
cancels-IsCancellation e (some se) f h = (se, f, ground arith)

not-cancels :
    (e : GoError) (o : Option StageError)
    → as_stage_error e ≡ o
    → cancels o ≡ false
    → ¬ IsCancellation e
not-cancels e none f h (se, g, k) = cc
not-cancels e (some se) f h (se', g, k) = ground arith

any_canceled-Scan : (es : List GoError) → Scan es (any_canceled es)
unfolding any_canceled
any_canceled-Scan [] = tt
any_canceled-Scan (e ∷ es) =
    let rest = any_canceled-Scan es in
    elim (Bool-cases (cancels (as_stage_error e))) [
      | inl stop ↦ rw stop (record {
        before = [];
        error = e;
        after = es;
        splits = refl;
        cancels = cancels-IsCancellation e (as_stage_error e) refl stop;
      })
      | inr go ↦
          rw go (Scan-cons e es (any_canceled es) (not-cancels e (as_stage_error e) refl go) rest)
    ]

failed_outcome :
    (r : BuildReport) (b : Bool)
    → r.errors ≢ []
    → any_canceled r.errors ≡ b
    → Scan r.errors b
    → IsOutcome r (derive_outcome r).outcome
unfolding derive_outcome
failed_outcome r true n e h =
    was_canceled h.before h.error h.after h.splits h.cancels (ground arith)
failed_outcome r false n e h = has_failed n h (ground arith)

-- `DeriveOutcome` decides: canceled when the first *StageError that `errors.As` finds in some error
-- is a canceled one; failed when there are other errors; warning when there are only warnings;
-- success when there is neither.
pub derive_outcome-IsOutcome : (r : BuildReport) → IsOutcome r (derive_outcome r).outcome
derive_outcome-IsOutcome r = decide r.errors r.warnings refl refl
  where
    decide :
        (es ws : List GoError)
        → r.errors ≡ es
        → r.warnings ≡ ws
        → IsOutcome r (derive_outcome r).outcome
    decide [] [] e w = is_clean e w (unfold derive_outcome in ground arith)
    decide [] (x ∷ ws) e w = has_warned e (λ n. cc) (unfold derive_outcome in ground arith)
    decide (x ∷ es) ws e w =
        failed_outcome r (any_canceled r.errors) (λ n. cc) refl (any_canceled-Scan r.errors)
