-- ===== src/Queue/Execute/Waits.antt =====
-- How long `executeBuild` waits between its attempts.
use docbuilder.Common.{
  ℕ, zero, suc, ◌+◌, ◌-◌, ◌*◌, ◌^◌, ◌≤◌, ◌<◌, Bool, ◌≡◌, sym, subst, Option, some, All, arith,
}
use docbuilder.Common.Int.{ℤ, pos, pos_part}
use docbuilder.Errors.{GoError}
use docbuilder.Retry.{Policy}
use docbuilder.Retry.Bounds.{IsUsable, growth, delay_mono}
use docbuilder.Stages.{BuildReport}
use docbuilder.Queue.Execute.{BuildOutput, Attempts, effective, execute_build}
use docbuilder.Queue.Execute.Run.{delays, execute_build-IsRun}

-- A positive duration up to `top`
abbrev pub InRange : ℕ → ℤ → Type 0
InRange top d = (a : ℕ) × (d ≡ pos a) × (0 < a) × (a ≤ top)

delays-InRange :
    (p : Policy) (first top m : ℕ)
    → IsUsable p first top
    → first * growth p.mode m < 2 ^ 63
    → (n k : ℕ) → n + k ≤ suc m
    → All (InRange top) (delays p n k)
unfolding delays
delays-InRange p first top m u fits n zero h = tt
delays-InRange p first top m u fits n (suc k) h =
    let (a, b, is_a, is_b, positive, le_b, le_top) =
      delay_mono p first top u n m (omega (arith, h)) fits in
    (
      (a, is_a, positive, omega (arith, le_b, le_top)),
      delays-InRange p first top m u fits (suc n) k (omega (arith, h)),
    )

-- For a policy in use with positive durations `first` ≤ `top`, and retries so few that the exact
-- delay of the last fits in an int64: `executeBuild` returns, having waited each time for more than
-- 0 and at most for `top`.
pub execute_build-InRange :
    (builder : ℕ → BuildOutput) (is_canceled : ℕ → Bool) (p : Policy) (old : Option BuildReport)
    (first top : ℕ)
    → IsUsable (effective p) first top
    → first * growth (effective p).mode (pos_part (effective p).max_retries - 1) < 2 ^ 63
    → let result =
        execute_build (suc (pos_part (effective p).max_retries)) builder is_canceled p old in
      (r : Option GoError × Attempts) × (result ≡ some r) × All (InRange top) r.1.waits
execute_build-InRange builder is_canceled p old first top u fits =
    let R = execute_build-IsRun builder is_canceled p old in
    let q = effective p in
    (
      (R.err, R.s'),
      R.returns,
      subst (λ ws. All (InRange top) ws) (sym R.waits_are)
          (delays-InRange q first top (pos_part q.max_retries - 1) u fits 0 R.k
            (omega (arith, R.bounded))),
    )
