-- ===== src/Debouncer.antt =====
-- internal/daemon/build_debouncer.go: coalesces bursts of BuildRequested events into one BuildNow.
-- A time.Time is a number of nanoseconds, 0 being its zero value.
pub mod Loop
pub mod Settings
use Prim.Native.String.{String}
use docbuilder.Common.{
  ℕ, ◌+◌, ◌-◌, Bool, true, false, not, ◌&&◌, ◌||◌, Option, none, some, List, [], ◌∷◌, ◌++◌,
  if◌then◌else◌, ltb, ◌==◌,
}
use docbuilder.Common.Text.{str_eq, is_empty, StringMap, put}

-- events.BuildRequested
pub record BuildRequested : Type 0 where
  pub job_id : String
  pub immediate : Bool
  pub reason : String
  pub repo_url : String
  pub branch : String
  pub snapshot : StringMap String
  pub requested_at : ℕ

-- events.BuildNow
pub record BuildNow : Type 0 where
  pub job_id : String
  pub triggered_at : ℕ
  pub request_count : ℕ
  pub last_reason : String
  pub last_repo_url : String
  pub last_branch : String
  pub snapshot : StringMap String
  pub first_request : ℕ
  pub last_request : ℕ
  pub debounce_cause : String

-- A call on the MetricsCollector; the histogram takes the duration in nanoseconds.
pub data MetricCall : Type 0 where
  increment : String → MetricCall
  add : String → ℕ → MetricCall
  gauge : String → ℕ → MetricCall
  histogram : String → ℕ → MetricCall
  custom : String → String → MetricCall

-- The fields of BuildDebouncer that change, with the calls made on its metrics.
pub record Debouncer : Type 0 where
  pub pending : Bool
  pub pending_after_run : Bool
  pub first_request_at : ℕ
  pub last_request_at : ℕ
  pub last_reason : String
  pub last_repo_url : String
  pub last_branch : String
  pub last_job_id : String
  pub last_emitted_job_id : String
  pub request_count : ℕ
  pub polling_after_run : Bool
  pub snapshot : StringMap String
  pub metered : Bool
  pub calls : List MetricCall

-- What the world answers during one round of the loop: the clock, `CheckBuildRunning` when the
-- poll asks and when `tryEmit` asks, and whether the bus accepts the event.
pub record World : Type 0 where
  pub now : ℕ
  pub polled_running : Bool
  pub running : Bool
  pub publishes : Bool

-- if d.metrics != nil { ... }
pub meter : List MetricCall → Debouncer → Debouncer
meter calls d = record d { calls = if d.metered then d.calls ++ calls else d.calls }

-- The loop over req.Snapshot: entries with an empty key or value are skipped.
pub merge_snapshot : StringMap String → StringMap String → StringMap String
merge_snapshot [] m = m
merge_snapshot ((k, v) ∷ rest) m =
    merge_snapshot rest (if is_empty k || is_empty v then m else put m k v)

-- The JobID was already emitted, and nothing is pending.
pub is_duplicate : BuildRequested → Debouncer → Bool
is_duplicate req d =
    not (is_empty req.job_id) && str_eq req.job_id d.last_emitted_job_id && not d.pending

-- The request is recorded over the batch `b` that it joins.
pub record_request : ℕ → BuildRequested → Debouncer → Debouncer
record_request at req b = record b {
  pending = true;
  last_request_at = at;
  last_reason = req.reason;
  last_repo_url = req.repo_url;
  last_branch = req.branch;
  last_job_id = req.job_id;
  request_count = b.request_count + 1;
  snapshot = merge_snapshot req.snapshot b.snapshot;
}

-- if !d.pending { ... }: a new batch starts.
pub start_batch : ℕ → Debouncer → Debouncer
start_batch at d =
    if d.pending then d else record d { first_request_at = at; request_count = 0; snapshot = [] }

abbrev bool_gauge : Bool → ℕ
bool_gauge b = if b then 1 else 0

request_calls : Debouncer → List MetricCall
request_calls d =
    increment "debouncer_build_requests_total"
    ∷ gauge "debouncer_pending" 1
    ∷ gauge "debouncer_pending_after_run" (bool_gauge d.pending_after_run)
    ∷ gauge "debouncer_planned_request_count" d.request_count
    ∷ []

-- now := req.RequestedAt; if now.IsZero() { now = time.Now() }
abbrev pub request_time : World → BuildRequested → ℕ
request_time w req = if req.requested_at == 0 then w.now else req.requested_at

-- onRequest
pub on_request : World → BuildRequested → Debouncer → Debouncer
unfolding meter record_request start_batch
on_request w req d =
    if is_duplicate req d
    then meter (increment "debouncer_build_requests_deduped_total" ∷ []) d
    else let at = request_time w req in
      let d' = record_request at req (start_batch at d) in meter (request_calls d') d'

-- shouldStartMaxTimer
pub should_start_max_timer : Debouncer → Bool
should_start_max_timer d = d.pending && d.request_count == 1

-- shouldPollAfterRun
pub should_poll_after_run : Debouncer → Bool
should_poll_after_run d = d.pending_after_run && not d.polling_after_run

-- PlannedJobID
pub planned_job_id : Debouncer → Option String
planned_job_id d =
    if not d.pending && not d.pending_after_run
    then none
    else if is_empty d.last_job_id
    then none
    else some d.last_job_id

-- What `tryEmit` leaves: the state, the event that the bus accepted, and its result.
pub record Attempt : Type 0 where
  pub after : Debouncer
  pub sent : Option BuildNow
  pub settled : Bool

build_now : World → String → Debouncer → BuildNow
build_now w cause d = record {
  job_id = d.last_job_id;
  triggered_at = w.now;
  request_count = d.request_count;
  last_reason = d.last_reason;
  last_repo_url = d.last_repo_url;
  last_branch = d.last_branch;
  snapshot = d.snapshot;
  first_request = d.first_request_at;
  last_request = d.last_request_at;
  debounce_cause = cause;
}

deferred_calls : List MetricCall
deferred_calls = gauge "debouncer_pending" 1 ∷ gauge "debouncer_pending_after_run" 1 ∷ []

emitted_calls : World → String → Debouncer → List MetricCall
emitted_calls w cause d =
    (increment "debouncer_builds_emitted_total" ∷ [])
    ++ ((if ltb 1 d.request_count
          then add "debouncer_coalesced_requests_total" (d.request_count - 1) ∷ []
          else [])
        ++ ((if d.first_request_at == 0
              then []
              else histogram "debouncer_time_to_build_seconds" (w.now - d.first_request_at) ∷ [])
            ++ (gauge "debouncer_pending" 0
                ∷ gauge "debouncer_pending_after_run" 0
                ∷ gauge "debouncer_planned_request_count" 0
                ∷ custom "debouncer_last_debounce_cause" cause
                ∷ [])))

-- tryEmit
pub try_emit : World → String → Debouncer → Attempt
unfolding meter build_now
try_emit w cause d =
    if not d.pending
    then record { after = d; sent = none; settled = true }
    else if w.running
    then record {
      after = meter deferred_calls (record d { pending_after_run = true });
      sent = none;
      settled = false;
    }
    else if not w.publishes
    then record {
      after =
          meter deferred_calls (record d { pending_after_run = true; polling_after_run = false });
      sent = none;
      settled = false;
    }
    else record {
      after = meter (emitted_calls w cause d) (record d {
        pending = false;
        pending_after_run = false;
        polling_after_run = false;
        last_emitted_job_id = d.last_job_id;
        snapshot = [];
      });
      sent = some (build_now w cause d);
      settled = true;
    }

-- tryEmitAfterRunning
pub try_emit_after_running : World → Debouncer → Attempt
unfolding try_emit
try_emit_after_running w d =
    if not d.pending_after_run
    then record { after = d; sent = none; settled = true }
    else let d' = record d { polling_after_run = true } in
      if w.polled_running
      then record { after = d'; sent = none; settled = false }
      else try_emit w "after_running" d'
