-- ===== src/Queue/Execute/Run.antt =====
-- What a run of `executeBuild` does: the number of its attempts, the waits and the error.
use docbuilder.Common.{
  ℕ, zero, suc, ◌+◌, ◌≤◌, ◌<◌, Bool, true, false, ◌≡◌, refl, sym, ap, ◌∙◌, ◌⊎◌, inl, inr, Option,
  none, some, List, [], ◌∷◌, ◌++◌, arith, subst,
}
use docbuilder.Common.Int.{ℤ, pos, pos_part}
use docbuilder.Errors.{GoError, StageName}
use docbuilder.Retry.{Policy, delay}
use docbuilder.Stages.{BuildReport}
use mathlib.Core.List.{append-nil, append_assoc}
use native.Mathlib.Nat.{add-zero}
use docbuilder.Queue.Execute.{
  resume, BuildOutput, Attempts, Turn, return, again, find_transient_error, should_stop_retrying,
  context_canceled, is_some, after_build, wait, turn, attempts_loop, before_first, effective,
  execute_build, handle_retries_exhausted,
}

-- The waits before retries n + 1, …, n + k
unfoldable pub delays : Policy → ℕ → ℕ → List ℤ
delays p n zero = []
delays p n (suc k) = delay p (pos (suc n)) ∷ delays p (suc n) k

-- A call of the builder that failed for a transient reason.
pub record FailsTransiently (out : BuildOutput) : Type 0 where
  pub e : GoError
  pub stage : StageName
  pub fails : out.error ≡ some e
  pub passes : find_transient_error out.report ≡ some stage

-- Why a loop ends that has waited m times: a wait was cut short, or call m was not to be retried.
unfoldable pub IsEnd : (ℕ → BuildOutput) → (ℕ → Bool) → Policy → ℕ → Option GoError → Type 0
IsEnd builder is_canceled p m err =
    ((is_canceled m ≡ true) × (err ≡ some context_canceled) × (0 < m))
    ⊎ (((builder m).error ≡ err)
        × ((err ≡ none)
            ⊎ ((find_transient_error (builder m).report ≡ none) ⊎ (pos_part p.max_retries ≤ m))))

data Outcome (builder : ℕ → BuildOutput) (is_canceled : ℕ → Bool) (p : Policy) (s : Attempts)
    : Turn → Type 0 where
  ends :
      (err : Option GoError) (s' : Attempts)
      → s'.retries ≡ s.retries
      → s'.waits ≡ s.waits
      → (builder s.retries).error ≡ err
      → (err ≡ none)
        ⊎ ((find_transient_error (builder s.retries).report ≡ none)
            ⊎ (pos_part p.max_retries ≤ s.retries))
      → Outcome builder is_canceled p s (return err s')
  cut :
      (s' : Attempts)
      → FailsTransiently (builder s.retries)
      → s.retries < pos_part p.max_retries
      → is_canceled (suc s.retries) ≡ true
      → s'.retries ≡ suc s.retries
      → s'.waits ≡ s.waits ++ delay p (pos (suc s.retries)) ∷ []
      → Outcome builder is_canceled p s (return (some context_canceled) s')
  goes_on :
      (s' : Attempts)
      → FailsTransiently (builder s.retries)
      → s.retries < pos_part p.max_retries
      → is_canceled (suc s.retries) ≡ false
      → s'.retries ≡ suc s.retries
      → s'.waits ≡ s.waits ++ delay p (pos (suc s.retries)) ∷ []
      → Outcome builder is_canceled p s (again s')

handle_retries_exhausted-retries :
    (report : Option BuildReport) (stage : Option StageName) (s : Attempts)
    → ((handle_retries_exhausted report stage s).retries ≡ s.retries)
      × ((handle_retries_exhausted report stage s).waits ≡ s.waits)
unfolding handle_retries_exhausted
handle_retries_exhausted-retries report stage s = ground arith

should_stop-bound : (n : ℕ) (m : ℤ) → should_stop_retrying true n m ≡ true → pos_part m ≤ n
unfolding should_stop_retrying
should_stop-bound n m h = ground arith

should_go-bound : (n : ℕ) (m : ℤ) → should_stop_retrying true n m ≡ false → n < pos_part m
unfolding should_stop_retrying
should_go-bound n m h = ground arith

module _ (builder : ℕ → BuildOutput) (is_canceled : ℕ → Bool) (p : Policy) where
  wait-Outcome :
      (s s0 : Attempts) (stage : Option StageName) (c : Bool)
      → FailsTransiently (builder s.retries)
      → s.retries < pos_part p.max_retries
      → is_canceled (suc s.retries) ≡ c
      → s0.retries ≡ s.retries
      → s0.waits ≡ s.waits
      → Outcome builder is_canceled p s (wait p c stage s0)
  unfolding wait
  wait-Outcome s s0 stage true f b e r w = cut _ f b e (ap suc r) (rw (r, w))
  wait-Outcome s s0 stage false f b e r w = goes_on _ f b e (ap suc r) (rw (r, w))

  after_build-Outcome :
      (s s0 : Attempts) (stage : Option StageName) (err : Option GoError) (stops : Bool)
      → find_transient_error (builder s.retries).report ≡ stage
      → (builder s.retries).error ≡ err
      → should_stop_retrying (is_some stage) s0.retries p.max_retries ≡ stops
      → s0.retries ≡ s.retries
      → s0.waits ≡ s.waits
      → Outcome builder is_canceled p s
          (after_build p (is_canceled (suc s.retries)) stage (builder s.retries).report err s0)
  unfolding after_build is_some should_stop_retrying
  after_build-Outcome s s0 stage none stops f e g r w = ends none _ r w e (inl refl)
  after_build-Outcome s s0 none (some x) stops f e g r w = ends (some x) s0 r w e (inr (inl f))
  after_build-Outcome s s0 (some st) (some x) true f e g r w = rw g (
      ends (some x) _ (h.0 ∙ r) (h.1 ∙ w) e (
        inr (
          inr (
            subst (λ n. pos_part p.max_retries ≤ n) r
              (should_stop-bound s0.retries p.max_retries g)))))
    where
      h :
          ((handle_retries_exhausted (builder s.retries).report (some st) s0).retries ≡ s0.retries)
          × ((handle_retries_exhausted (builder s.retries).report (some st) s0).waits ≡ s0.waits)
      h = handle_retries_exhausted-retries (builder s.retries).report (some st) s0
  after_build-Outcome s s0 (some st) (some x) false f e g r w = rw g (
      wait-Outcome s s0 (some st) _ (record { e = x; stage = st; fails = e; passes = f })
        (subst (λ n. n < pos_part p.max_retries) r (should_go-bound s0.retries p.max_retries g))
        refl r w)

  turn-Outcome : (s : Attempts) → Outcome builder is_canceled p s (turn builder is_canceled p s)
  unfolding turn
  turn-Outcome s = after_build-Outcome s _ _ _ _ refl refl refl refl refl

-- A run that has waited n times, up to its end after m waits: every call before the last failed for
-- a transient reason, and every wait but the last one was not cut short.
pub record IsRun (builder : ℕ → BuildOutput) (is_canceled : ℕ → Bool) (p : Policy) (s : Attempts)
    (result : Option (Option GoError × Attempts)) : Type 0 where
  pub err : Option GoError
  pub s' : Attempts
  pub k : ℕ
  pub returns : result ≡ some (err, s')
  pub retries_are : s'.retries ≡ s.retries + k
  pub bounded : s.retries + k ≤ pos_part p.max_retries
  pub waits_are : s'.waits ≡ s.waits ++ delays p s.retries k
  pub retried : (i : ℕ) → s.retries ≤ i → i < s.retries + k → FailsTransiently (builder i)
  pub waited : (i : ℕ) → s.retries < i → i < s.retries + k → is_canceled i ≡ false
  pub ended : IsEnd builder is_canceled p (s.retries + k) err

at_or_after : (n i : ℕ) → n ≤ i → (n ≡ i) ⊎ (n < i)
at_or_after n i h = ground arith

module _ (builder : ℕ → BuildOutput) (is_canceled : ℕ → Bool) (p : Policy) where
  longer_waits :
      (s s' : Attempts) (k : ℕ)
      → s'.retries ≡ suc s.retries
      → s'.waits ≡ s.waits ++ delay p (pos (suc s.retries)) ∷ []
      → s'.waits ++ delays p s'.retries k ≡ s.waits ++ delays p s.retries (suc k)
  unfolding delays
  longer_waits s s' k r w =
      ap (λ ws. ws ++ delays p s'.retries k) w
      ∙ ap (λ n. (s.waits ++ delay p (pos (suc s.retries)) ∷ []) ++ delays p n k) r
      ∙ append_assoc s.waits (delay p (pos (suc s.retries)) ∷ []) (delays p (suc s.retries) k)

  rest-IsRun :
      (s : Attempts) (t : Turn) (rest : Attempts → Option (Option GoError × Attempts))
      → Outcome builder is_canceled p s t
      → s.retries ≤ pos_part p.max_retries
      → ((s' : Attempts)
          → s'.retries ≡ suc s.retries
          → s.retries < pos_part p.max_retries
          → IsRun builder is_canceled p s' (rest s'))
      → IsRun builder is_canceled p s (resume rest t)
  unfolding resume IsEnd delays
  rest-IsRun s t rest (ends err s' r w e why) b ih = record {
    err = err;
    s' = s';
    k = 0;
    returns = refl;
    retries_are = omega (arith, r);
    bounded = omega (arith, b);
    waits_are = w ∙ sym (append-nil s.waits);
    retried = λ i lo hi. absurd (omega (arith, lo, hi));
    waited = λ i lo hi. absurd (omega (arith, lo, hi));
    ended = rw (add-zero) (inr (e, why));
  }
  rest-IsRun s t rest (cut s' f b' c r w) b ih = record {
    err = some context_canceled;
    s' = s';
    k = 1;
    returns = refl;
    retries_are = omega (arith, r);
    bounded = omega (arith, b');
    waits_are = w;
    retried = λ i lo hi.
        let at : s.retries ≡ i = omega (arith, lo, hi) in
        subst (λ j. FailsTransiently (builder j)) at f;
    waited = λ i lo hi. absurd (omega (arith, lo, hi));
    ended = inl (
      let at : suc s.retries ≡ s.retries + 1 = omega arith in
          subst (λ j. is_canceled j ≡ true) at c,
      refl,
      omega arith,
    );
  }
  rest-IsRun s t rest (goes_on s' f b' c r w) b ih =
      let R = ih s' r b' in
      let e : s'.retries + R.k ≡ s.retries + suc R.k = omega (arith, r) in
      record {
        err = R.err;
        s' = R.s';
        k = suc R.k;
        returns = R.returns;
        retries_are = R.retries_are ∙ e;
        bounded = omega (arith, R.bounded, e);
        waits_are = R.waits_are ∙ longer_waits s s' R.k r w;
        retried = λ i lo hi. elim (at_or_after s.retries i lo) [
          | inl at ↦ subst (λ j. FailsTransiently (builder j)) at f
          | inr after ↦ R.retried i (omega (arith, r, after)) (omega (arith, e, hi))
        ];
        waited = λ i lo hi. elim (at_or_after (suc s.retries) i lo) [
          | inl at ↦ subst (λ j. is_canceled j ≡ false) at c
          | inr after ↦ R.waited i (omega (arith, r, after)) (omega (arith, e, hi))
        ];
        ended = subst (λ m. IsEnd builder is_canceled p m R.err) e R.ended;
      }

  loop-IsRun :
      (fuel : ℕ) (s : Attempts)
      → s.retries ≤ pos_part p.max_retries
      → pos_part p.max_retries < fuel + s.retries
      → IsRun builder is_canceled p s (attempts_loop fuel builder is_canceled p s)
  unfolding attempts_loop
  loop-IsRun zero s b h = absurd (omega (arith, b, h))
  loop-IsRun (suc fuel) s b h =
      rest-IsRun s _ _ (turn-Outcome builder is_canceled p s) b
        (λ s' r b'. loop-IsRun fuel s' (omega (arith, r, b')) (omega (arith, r, h)))

-- For every builder, policy and behaviour of the job's context, with fuel for one attempt more than
-- the policy's retries, `executeBuild` returns. It has retried k times, where k is at most the
-- number of retries that the policy in use allows; it waited for the policy's delays 1 to k; each
-- attempt before the last failed with a transient stage error in its report, and no wait but the
-- last was cut short. It returns the context's error if the last wait was cut short; otherwise the
-- error of attempt k + 1, which succeeded, was not transient, or came when the retries were used up.
pub execute_build-IsRun :
    (builder : ℕ → BuildOutput) (is_canceled : ℕ → Bool) (p : Policy) (old : Option BuildReport)
    → IsRun builder is_canceled
        (effective p)
        (before_first old)
        (execute_build (suc (pos_part (effective p).max_retries)) builder is_canceled p old)
unfolding execute_build
execute_build-IsRun builder is_canceled p old =
    loop-IsRun builder is_canceled (effective p) (suc (pos_part (effective p).max_retries))
      (before_first old) (omega arith) (omega arith)
