-- ===== src/Retry/Bounds.antt =====
-- The bounds of the backoff delay, and what int64 wrap-around does to them.
use Prim.Native.Nat.{min}
use native.Mathlib.Nat.{pow-le-pow_right, one-le-pow, mul-one}
use docbuilder.Common.{ℕ, suc, ◌+◌, ◌*◌, ◌^◌, ◌≤◌, ◌<◌, ◌≡◌, refl, none, arith}
use docbuilder.Common.Int.{
  ℤ, pos, mul64, one_shl64, mul64_exact, one_shl64_exact, one_shl64-zero, mul64-zero,
}
use docbuilder.Retry.{
  RetryBackoffMode, fixed, exponential, Policy, new_policy, delay_by, delay, validate,
}

-- Whatever the configuration holds, the policy that `NewPolicy` builds from it passes `Validate`.
pub validate-new_policy :
    (mode : RetryBackoffMode) (initial max_duration max_retries : ℤ)
    → validate (new_policy mode initial max_duration max_retries) ≡ none
unfolding validate new_policy
validate-new_policy mode initial max_duration max_retries = ground arith

-- The policy has positive durations `first` and `top` in order.
pub record IsUsable (p : Policy) (first top : ℕ) : Type 0 where
  pub initial_is : p.initial ≡ pos first
  pub max_is : p.max ≡ pos top
  pub first_pos : 0 < first
  pub ordered : first ≤ top

-- The factor by which retry k + 1 multiplies the base delay, over unbounded numbers.
unfoldable pub growth : RetryBackoffMode → ℕ → ℕ
growth fixed k = 1
growth exponential k = 2 ^ k
growth _ k = k + 1

growth_mono : (m : RetryBackoffMode) (j k : ℕ) → j ≤ k → growth m j ≤ growth m k
unfolding growth
growth_mono exponential j k h = pow-le-pow_right (omega arith) h
growth_mono fixed j k h = omega arith
growth_mono _ j k h = omega arith

growth_pos : (m : RetryBackoffMode) (k : ℕ) → 0 < growth m k
unfolding growth
growth_pos exponential k = one-le-pow k 2 (omega arith)
growth_pos fixed k = omega arith
growth_pos _ k = omega arith

pow-le_mul : (first k : ℕ) → 0 < first → 2 ^ k ≤ first * 2 ^ k
pow-le_mul first k h = grind arith

delay-exponential :
    (p : Policy) (first k : ℕ)
    → 0 < first
    → first * 2 ^ k < 2 ^ 63
    → mul64 (pos first) (one_shl64 k) ≡ pos (first * 2 ^ k)
delay-exponential p first k f h =
    rw (one_shl64_exact k (omega (arith, pow-le_mul first k f))) (mul64_exact first (2 ^ k) h)

module _ (p : Policy) (first top : ℕ) (u : IsUsable p first top) where
  delay_by-ideal :
      (m : RetryBackoffMode) (k : ℕ)
      → p.mode ≡ m
      → first * growth m k < 2 ^ 63
      → delay p (pos (suc k)) ≡ pos (min (first * growth m k) top)
  unfolding delay growth
  delay_by-ideal fixed k e h = ground (arith, mul-one first)
  delay_by-ideal exponential k e h =
      rw (e, delay_by, u.initial_is, u.max_is, delay-exponential p first k u.first_pos h)
        (ground arith)
  delay_by-ideal _ k e h =
      rw (e, delay_by, u.initial_is, u.max_is, mul64_exact (suc k) first (grind arith))
        (grind arith)

  -- For positive durations `first` ≤ `top`: while the product of `first` and the growth factor of
  -- the mode fits in an int64, `Delay(k + 1)` is the smaller of this exact product and `top`.
  pub delay-ideal :
      (k : ℕ)
      → first * growth p.mode k < 2 ^ 63
      → delay p (pos (suc k)) ≡ pos (min (first * growth p.mode k) top)
  delay-ideal k h = delay_by-ideal p.mode k refl h

  -- For positive durations `first` ≤ `top`, as long as the exact product at retry k + 1 fits in an
  -- int64: every retry up to it waits for more than 0, no longer than retry k + 1, which waits for
  -- at most `top`.
  pub delay_mono :
      (j k : ℕ)
      → j ≤ k
      → first * growth p.mode k < 2 ^ 63
      → (a b : ℕ) × (delay p (pos (suc j)) ≡ pos a)
        × (delay p (pos (suc k)) ≡ pos b)
        × (0 < a)
        × (a ≤ b)
        × (b ≤ top)
  delay_mono j k h fits =
      let g = growth p.mode in
      let scaled : first * g j ≤ first * g k = grind (arith, growth_mono p.mode j k h) in
      (
        min (first * g j) top,
        min (first * g k) top,
        delay-ideal j (omega (arith, scaled)),
        delay-ideal k fits,
        grind (arith, growth_pos p.mode j),
        omega (arith, scaled),
        omega arith,
      )

-- With exponential backoff and a cap that is not negative, every retry past the 64th waits for 0:
-- all bits of the factor are shifted out of the int64.
pub delay_overflow :
    (p : Policy) (top k : ℕ)
    → p.mode ≡ exponential
    → p.max ≡ pos top
    → delay p (pos (suc (k + 64))) ≡ pos 0
unfolding delay
delay_overflow p top k e m =
    rw (e, delay_by, m, one_shl64-zero k, mul64-zero p.initial) (ground arith)
