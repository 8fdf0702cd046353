-- ===== src/Stages/Runner/Order.antt =====
-- internal/hugo/stages/runner.go: the loop runs stage after stage and stops at the first end.
use native.Mathlib.Nat.{add-zero}
use mathlib.Core.Path.{fun_ext}
use docbuilder.Common.{ℕ, suc, ◌+◌, ◌≡◌, refl, ◌∙◌, ap, Bool, List, [], ◌∷◌, ◌++◌, arith, length}
use docbuilder.Stages.Runner.{
  BuildState, StageDef, RunResult, completed, ended, Next, go_on, ends, stage_round, continue_with,
  run_loop,
}

-- The run goes on with further stages only if the one before it completed all of its own.
unfoldable pub then_run :
    (ℕ → Bool) → ℕ → List StageDef → RunResult × BuildState → RunResult × BuildState
then_run done i more (completed, s) = run_loop done i more s
then_run done i more (ended r, s) = (ended r, s)

continue_with-then_run :
    (done : ℕ → Bool) (j : ℕ) (more : List StageDef) (n : Next × BuildState)
    (f : BuildState → RunResult × BuildState)
    → continue_with n (λ s. then_run done j more (f s)) ≡ then_run done j more (continue_with n f)
unfolding then_run
continue_with-then_run done j more (go_on, s) f = refl
continue_with-then_run done j more (ends r, s) f = refl

-- Running two lists of stages in one is running the first and, only if that completed all its
-- stages, going on with the second: once a stage has ended the run, no later stage runs.
pub run_loop-append :
    (done : ℕ → Bool) (i : ℕ) (first more : List StageDef) (s : BuildState)
    → run_loop done i (first ++ more) s
      ≡ then_run done (i + length first) more (run_loop done i first s)
unfolding run_loop
run_loop-append done i [] more s = unfold then_run in rw add-zero
run_loop-append done i (st ∷ first) more s =
    let n = stage_round (done i) st s in
    ap (continue_with n) (fun_ext (run_loop-append done (suc i) first more))
    ∙ continue_with-then_run done (suc i + length first) more n (run_loop done (suc i) first)
    ∙ ap (λ k. then_run done k more (continue_with n (run_loop done (suc i) first))) (omega arith)
