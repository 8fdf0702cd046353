-- ===== src/Queue.antt =====
-- internal/build/queue/build_queue.go: the queue of build jobs. A *BuildJob is a number that the
-- store maps to the job, so that the channel, the active map and the history share it. Locks make
-- each operation below atomic; log lines and the wait group are left out.
pub mod Bounds
pub mod Execute
pub mod Process
mod Tests
use Prim.Native.String.{String}
use docbuilder.Common.{
  ℕ, suc, ◌+◌, ◌-◌, Bool, true, false, not, ◌&&◌, Option, none, some, List, [], ◌∷◌, ◌++◌,
  if◌then◌else◌, ltb, leb, ◌==◌, length, drop, map,
}
use docbuilder.Common.Int.{ℤ, pos, is_pos, pos_part}
use docbuilder.Common.Text.{StringMap, get, put, delete, is_empty, str_eq}
use docbuilder.Errors.{GoError}
use docbuilder.Retry.{RetryBackoffMode, Policy, default_policy, new_policy}
use docbuilder.Stages.{BuildReport}

-- BuildType
pub data BuildType : Type 0 where
  manual scheduled webhook discovery : BuildType

-- BuildPriority
pub data BuildPriority : Type 0 where
  low normal high urgent : BuildPriority

-- BuildStatus; `no_status` is the empty text.
pub data BuildStatus : Type 0 where
  no_status queued running completed failed canceled : BuildStatus

-- BuildJob: `report` is TypedMeta.BuildReport, `canceled_by_stop` that `Stop` has called its
-- cancel function, and `error` the error whose text is kept.
pub record BuildJob : Type 0 where
  pub id : String
  pub type : BuildType
  pub priority : BuildPriority
  pub status : BuildStatus
  pub started_at : Option ℕ
  pub completed_at : Option ℕ
  pub duration : ℕ
  pub error : Option GoError
  pub report : Option BuildReport
  pub canceled_by_stop : Bool

-- A call on the BuildEventEmitter, less the name of the worker. Its errors are only logged.
pub data Emission : Type 0 where
  build_started : String → BuildType → BuildPriority → Emission
  build_report : String → BuildReport → Emission
  build_failed : String → GoError → Emission
  build_completed : String → ℕ → Option BuildReport → Emission

-- BuildQueue: `jobs` is the channel, `emits` tells whether there is an event emitter.
pub record BuildQueue : Type 0 where
  pub jobs : List ℕ
  pub workers : ℕ
  pub max_size : ℕ
  pub active : StringMap ℕ
  pub history : List ℕ
  pub history_size : ℕ
  pub stopping : Bool
  pub retry_policy : Policy
  pub emits : Bool
  pub emitted : List Emission
  pub store : ℕ → BuildJob

-- A write through the pointer.
abbrev pub write : (ℕ → BuildJob) → ℕ → BuildJob → ℕ → BuildJob
write store p job q = if p == q then job else store q

abbrev positive_or : ℤ → ℕ → ℕ
positive_or n d = if is_pos n then pos_part n else d

-- NewBuildQueue; `none` is the panic on a missing builder.
pub new_build_queue : ℤ → ℤ → Bool → (ℕ → BuildJob) → Option BuildQueue
new_build_queue max_size workers has_builder store =
    if not has_builder
    then none
    else some (record {
      jobs = [];
      workers = positive_or workers 2;
      max_size = positive_or max_size 100;
      active = [];
      history = [];
      history_size = 50;
      stopping = false;
      retry_policy = default_policy;
      emits = false;
      emitted = [];
      store = store;
    })

pub data EnqueueError : Type 0 where
  job_nil id_required queue_full : EnqueueError

-- `Enqueue` for a job that is not nil. The status is set before the channel is tried.
enqueue_job : ℕ → BuildQueue → BuildQueue × Option EnqueueError
enqueue_job p q =
    if is_empty (q.store p).id
    then (q, some id_required)
    else let q' = record q { store = write q.store p (record (q.store p) { status = queued }) } in
      if ltb (length q.jobs) q.max_size
      then (record q' { jobs = q.jobs ++ p ∷ [] }, none)
      else (q', some queue_full)

-- Enqueue
pub enqueue : Option ℕ → BuildQueue → BuildQueue × Option EnqueueError
unfolding enqueue_job
enqueue none q = (q, some job_nil)
enqueue (some p) q = enqueue_job p q

from_channel : List ℕ → BuildQueue → Option (ℕ × BuildQueue)
from_channel [] q = none
from_channel (p ∷ rest) q = some (p, record q { jobs = rest })

-- A worker receives the next job from the channel.
pub receive : BuildQueue → Option (ℕ × BuildQueue)
unfolding from_channel
receive q = from_channel q.jobs q

emit : List Emission → BuildQueue → BuildQueue
emit es q = record q { emitted = if q.emits then q.emitted ++ es else q.emitted }

-- processJob up to the build: the job is running and active, and its start is emitted.
pub begin_job : ℕ → ℕ → BuildQueue → BuildQueue
unfolding emit
begin_job now p q =
    let job = record (q.store p) {
      started_at = some now;
      status = running;
      canceled_by_stop = false;
    } in
    emit (build_started job.id job.type job.priority ∷ [])
      (record q { store = write q.store p job; active = put q.active job.id p })

-- `executeBuild` leaves the last report that a builder returned with the job.
pub keep_report : ℕ → Option BuildReport → BuildQueue → BuildQueue
keep_report p report q = record q {
  store = write q.store p (record (q.store p) { report = report });
}

-- addToHistory
pub add_to_history : ℕ → ℕ → List ℕ → List ℕ
add_to_history size p history =
    let longer = history ++ p ∷ [] in
    if ltb size (length longer) then drop (length longer - size) longer else longer

abbrev since : Option ℕ → ℕ → ℕ → ℕ
since none now d = d
since (some start) now d = now - start

abbrev pub status_of : Option GoError → BuildStatus
status_of none = completed
status_of (some e) = failed

-- job.Error is set only by an error.
abbrev pub error_of : Option GoError → Option GoError → Option GoError
error_of none old = old
error_of (some e) old = some e

-- markJobCompleted
pub mark_job_completed : ℕ → ℕ → Option GoError → BuildQueue → BuildQueue
unfolding add_to_history
mark_job_completed now p err q =
    let old = q.store p in
    let job = record old {
      completed_at = some now;
      duration = since old.started_at now old.duration;
      status = status_of err;
      error = error_of err old.error;
    } in
    record q {
      active = delete q.active old.id;
      history = add_to_history q.history_size p q.history;
      store = write q.store p job;
    }

pub completion : BuildJob → Option GoError → List Emission
completion job none = build_completed job.id job.duration job.report ∷ []
completion job (some e) = build_failed job.id e ∷ []

pub report_emission : BuildJob → Option BuildReport → List Emission
report_emission job none = []
report_emission job (some r) = build_report job.id r ∷ []

-- emitCompletionEvents
pub emit_completion_events : ℕ → Option GoError → BuildQueue → BuildQueue
unfolding emit completion report_emission
emit_completion_events p err q =
    let job = q.store p in emit (report_emission job job.report ++ completion job err) q

-- The loop of `JobSnapshot` over the history.
find_in : (ℕ → BuildJob) → String → List ℕ → Option BuildJob
find_in store id [] = none
find_in store id (p ∷ rest) =
    let later = find_in store id rest in if str_eq (store p).id id then some (store p) else later

snapshot_of : Option ℕ → (ℕ → BuildJob) → Option BuildJob → Option BuildJob
snapshot_of none store other = other
snapshot_of (some p) store other = some (store p)

-- JobSnapshot
pub job_snapshot : String → BuildQueue → Option BuildJob
unfolding find_in snapshot_of
job_snapshot id q = snapshot_of (get q.active id) q.store (find_in q.store id q.history)

cancel_all : StringMap ℕ → (ℕ → BuildJob) → ℕ → BuildJob
cancel_all [] store = store
cancel_all ((id, p) ∷ rest) store =
    cancel_all rest (write store p (record (store p) { canceled_by_stop = true }))

-- Stop, up to the wait for the workers; `none` is the panic when the channel is closed already.
pub stop : BuildQueue → Option BuildQueue
unfolding cancel_all
stop q =
    if q.stopping
    then none
    else some (record q { stopping = true; store = cancel_all q.active q.store })

-- ConfigureRetry; the durations are what time.ParseDuration returns, 0 for a text that it refuses.
pub configure_retry : RetryBackoffMode → ℤ → ℤ → ℤ → BuildQueue → BuildQueue
configure_retry mode initial max_delay max_retries q = record q {
  retry_policy = new_policy mode initial max_delay max_retries;
}

-- SetEventEmitter, with an emitter or nil
pub set_event_emitter : Bool → BuildQueue → BuildQueue
set_event_emitter emits q = record q { emits = emits }

-- Length
pub length_of : BuildQueue → ℕ
length_of q = length q.jobs

-- GetActiveJobs
pub get_active_jobs : BuildQueue → List ℕ
get_active_jobs q = map (λ e. e.1) q.active
