-- ===== src/Queue/Process.antt =====
-- internal/build/queue/build_queue.go: `processJob`, what a worker does with a job. The builder and
-- the job's context are parameters, as for `executeBuild`; `started` and `ended` are the readings of
-- the clock. Other operations may run during the build; here they do not.
use docbuilder.Common.{
  ℕ, suc, Bool, true, false, ◌≡◌, refl, ap, ◌∙◌, ◌≢◌, Option, none, some, ◌∷◌, ◌++◌, ◌==◌, arith,
}
use mathlib.Core.List.{append_assoc}
use Prim.Native.String.{String}
use text.Mathlib.TextEquality.{eq_iff}
use docbuilder.Common.Int.{pos_part}
use docbuilder.Common.Text.{get, get-put, get-delete, str_eq}
use docbuilder.Errors.{GoError}
use docbuilder.Queue.Execute.{BuildOutput, Attempts, effective, execute_build}
use docbuilder.Queue.Execute.Run.{execute_build-IsRun}
use docbuilder.Queue.{
  BuildQueue, build_started, begin_job, keep_report, add_to_history, mark_job_completed,
  emit_completion_events, emit, completion, report_emission, status_of, error_of,
}

finish_job : ℕ → ℕ → BuildQueue → Option (Option GoError × Attempts) → Option BuildQueue
finish_job ended p q none = none
finish_job ended p q (some (err, run)) =
    some (emit_completion_events p err (mark_job_completed ended p err (keep_report p run.kept q)))

-- One attempt more than the retries of the policy
abbrev pub enough_fuel : BuildQueue → ℕ
enough_fuel q = suc (pos_part (effective q.retry_policy).max_retries)

-- processJob, `none` when the attempts of the job do not end
pub process_job : ℕ → ℕ → (ℕ → BuildOutput) → (ℕ → Bool) → ℕ → BuildQueue → Option BuildQueue
unfolding finish_job
process_job started ended builder is_canceled p q =
    let q' = begin_job started p q in
    finish_job ended p q'
      (execute_build (enough_fuel q) builder is_canceled q.retry_policy (q'.store p).report)

-- What a worker has done with job p of the queue q when its attempts ended with `err` and `run`.
pub record IsProcessed (started ended p : ℕ) (err : Option GoError) (run : Attempts)
    (q q' : BuildQueue) : Type 0 where
  pub status_is : (q'.store p).status ≡ status_of err
  pub error_is : (q'.store p).error ≡ error_of err (q.store p).error
  pub report_is : (q'.store p).report ≡ run.kept
  pub times_are :
      ((q'.store p).started_at ≡ some started) × ((q'.store p).completed_at ≡ some ended)
  pub others_stay : (r : ℕ) → p ≢ r → q'.store r ≡ q.store r
  pub inactive : get q'.active (q.store p).id ≡ none
  pub others_active :
      (id : _) → str_eq (q.store p).id id ≡ false → get q'.active id ≡ get q.active id
  pub history_is : q'.history ≡ add_to_history q.history_size p q.history
  pub emitted_are :
      q.emits ≡ true
      → q'.emitted
        ≡ q.emitted
          ++ build_started (q.store p).id (q.store p).type (q.store p).priority
            ∷ report_emission (q'.store p) run.kept
          ++ completion (q'.store p) err

eq-same : (p : ℕ) → (p == p) ≡ true
eq-same p = ground arith

str_eq-same : (s : String) → str_eq s s ≡ true
str_eq-same s = ground (arith, eq_iff s s)

finish_job-IsProcessed :
    (started ended p : ℕ) (err : Option GoError) (run : Attempts) (q : BuildQueue)
    → IsProcessed started ended p err run q (
        emit_completion_events p err
          (mark_job_completed ended p err (keep_report p run.kept (begin_job started p q))))
unfolding begin_job emit mark_job_completed keep_report emit_completion_events
finish_job-IsProcessed started ended p err run q = record {
  status_is = ground arith;
  error_is = ground arith;
  report_is = ground arith;
  times_are = ground arith;
  others_stay = λ r ne. ground arith;
  inactive = simp (eq-same, get-delete, str_eq-same);
  others_active = λ id ne. simp (eq-same, get-delete, get-put, ne);
  history_is = refl;
  emitted_are = λ on. simp (eq-same, on, append_assoc);
}

finish_job-returns :
    (ended p : ℕ) (q : BuildQueue) (err : Option GoError) (run : Attempts)
    → (result : Option (Option GoError × Attempts)) → result ≡ some (err, run)
    → finish_job ended p q result
      ≡ some
          (emit_completion_events p err (mark_job_completed ended p err (keep_report p run.kept q)))
unfolding finish_job
finish_job-returns ended p q err run result e = rw e

-- A worker always finishes the job p that it processes. The attempts end with some error or none,
-- and then: the job is failed or completed accordingly, with its error, its times and the report of
-- the attempts; its id, and no other, has left the active map; it was added to the history; no other
-- job has changed; with an emitter, the start, the report if there is one, and the failure or the
-- completion were emitted, in this order.
pub process_job-IsProcessed :
    (started ended p : ℕ) (builder : ℕ → BuildOutput) (is_canceled : ℕ → Bool) (q : BuildQueue)
    → (err : Option GoError) × (run : Attempts) × (q' : BuildQueue) × (execute_build
          (enough_fuel q)
          builder
          is_canceled
          q.retry_policy
          (q.store p).report
        ≡ some (err, run))
      × (process_job started ended builder is_canceled p q ≡ some q')
      × IsProcessed started ended p err run q q'
unfolding process_job begin_job emit
process_job-IsProcessed started ended p builder is_canceled q =
    let R = execute_build-IsRun builder is_canceled q.retry_policy (q.store p).report in
    let kept : ((begin_job started p q).store p).report ≡ (q.store p).report = simp (eq-same) in
    (
      R.err,
      R.s',
      _,
      R.returns,
      finish_job-returns ended p (begin_job started p q) R.err R.s' _
          (ap (execute_build (enough_fuel q) builder is_canceled q.retry_policy) kept ∙ R.returns),
      finish_job-IsProcessed started ended p R.err R.s' q,
    )
