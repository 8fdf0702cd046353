-- ===== src/Queue/Tests.antt =====
-- A queue of two jobs at work, and the theorems about the queue at it.
use docbuilder.Common.{ℕ, zero, true, false, ◌≡◌, refl, Option, none, some, [], ◌∷◌}
use docbuilder.Common.Int.{pos}
use docbuilder.Errors.{GoError}
use docbuilder.Retry.{default_policy}
use docbuilder.Queue.Bounds.{
  Reaches, created, enqueues, begins, completes, IsBounded, reachable-IsBounded,
}
use docbuilder.Queue.Execute.{Attempts, execute_build}
use docbuilder.Queue.Execute.Tests.{failure, flaky, never_canceled}
use docbuilder.Queue.Process.{enough_fuel, process_job, IsProcessed, process_job-IsProcessed}
use docbuilder.Queue.{
  BuildJob, BuildQueue, manual, normal, no_status, new_build_queue, enqueue, begin_job,
  mark_job_completed, queue_full,
}

abbrev blank_job : ℕ → BuildJob
blank_job zero = record {
  id = "first";
  type = manual;
  priority = normal;
  status = no_status;
  started_at = none;
  completed_at = none;
  duration = 0;
  error = none;
  report = none;
  canceled_by_stop = false;
}
blank_job _ = record {
  id = "second";
  type = manual;
  priority = normal;
  status = no_status;
  started_at = none;
  completed_at = none;
  duration = 0;
  error = none;
  report = none;
  canceled_by_stop = false;
}

abbrev one_place : BuildQueue
one_place = record {
  jobs = [];
  workers = 2;
  max_size = 1;
  active = [];
  history = [];
  history_size = 50;
  stopping = false;
  retry_policy = default_policy;
  emits = false;
  emitted = [];
  store = blank_job;
}

is_new : new_build_queue (pos 1) (pos 0) true blank_job ≡ some one_place
unfolding new_build_queue
is_new = refl

overflows : (enqueue (some 1) (enqueue (some 0) one_place).0).1 ≡ some queue_full
unfolding enqueue
overflows = refl

at_work : BuildQueue
at_work = mark_job_completed 9 0 (some failure) (begin_job 4 0 (enqueue (some 0) one_place).0)

at_work_reached : Reaches at_work (0 ∷ [])
unfolding at_work
at_work_reached =
    completes 9 0 (some failure)
      (begins 4 0 (enqueues (some 0) (created (pos 1) (pos 0) blank_job is_new)))

reachable-IsBounded_example : IsBounded at_work (0 ∷ [])
reachable-IsBounded_example = reachable-IsBounded at_work_reached

process_job-IsProcessed_example :
    (err : Option GoError) × (run : Attempts) × (q' : BuildQueue) × (execute_build
        (enough_fuel one_place)
        (flaky 1)
        never_canceled
        default_policy
        none
      ≡ some (err, run))
    × (process_job 3 8 (flaky 1) never_canceled 0 one_place ≡ some q')
    × IsProcessed 3 8 0 err run one_place q'
process_job-IsProcessed_example = process_job-IsProcessed 3 8 0 (flaky 1) never_canceled one_place
