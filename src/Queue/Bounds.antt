-- ===== src/Queue/Bounds.antt =====
-- The bounds of the queue's channel and history, over every order of the workers' operations.
use mathlib.Core.Option.{some-injective, none-ne-some}
use docbuilder.Common.{
  ℕ, Bool, Bool-cases, inl, inr, zero, suc, ◌-◌, ◌≤◌, ◌<◌, true, ◌≡◌, refl, ap, ◌∙◌, sym, subst,
  Option, none, some, List, [], ◌∷◌, ◌++◌, length, drop, length-append, length-drop, drop-add,
  arith,
}
use docbuilder.Common.Int.{ℤ}
use docbuilder.Retry.{RetryBackoffMode}
use docbuilder.Errors.{GoError}
use docbuilder.Stages.{BuildReport}
use docbuilder.Queue.{
  BuildJob, BuildQueue, new_build_queue, enqueue_job, enqueue, from_channel, receive, begin_job,
  keep_report, add_to_history, configure_retry, set_event_emitter, mark_job_completed, emit,
  emit_completion_events, stop, positive_or,
}

-- The last n items of a list
abbrev latest {ℓ} : {A : Type ℓ} → ℕ → List A → List A
latest n xs = drop (length xs - n) xs

-- A queue after some operations of its clients and workers, in any order, and the jobs that were
-- marked as completed, in this order.
pub data Reaches : BuildQueue → List ℕ → Type 0 where
  created :
      (max_size workers : ℤ) (store : ℕ → BuildJob) {q : BuildQueue}
      → new_build_queue max_size workers true store ≡ some q
      → Reaches q []
  enqueues :
      {q : BuildQueue} {done : List ℕ} (job : Option ℕ)
      → Reaches q done
      → Reaches (enqueue job q).0 done
  receives :
      {q q' : BuildQueue} {done : List ℕ} {p : ℕ}
      → Reaches q done
      → receive q ≡ some (p, q')
      → Reaches q' done
  begins :
      {q : BuildQueue} {done : List ℕ} (now p : ℕ)
      → Reaches q done
      → Reaches (begin_job now p q) done
  builds :
      {q : BuildQueue} {done : List ℕ} (p : ℕ) (report : Option BuildReport)
      → Reaches q done
      → Reaches (keep_report p report q) done
  completes :
      {q : BuildQueue} {done : List ℕ} (now p : ℕ) (err : Option GoError)
      → Reaches q done
      → Reaches (mark_job_completed now p err q) (done ++ p ∷ [])
  reports :
      {q : BuildQueue} {done : List ℕ} (p : ℕ) (err : Option GoError)
      → Reaches q done
      → Reaches (emit_completion_events p err q) done
  stops : {q q' : BuildQueue} {done : List ℕ} → Reaches q done → stop q ≡ some q' → Reaches q' done
  configures :
      {q : BuildQueue} {done : List ℕ} (mode : RetryBackoffMode) (initial max_delay max_retries : ℤ)
      → Reaches q done
      → Reaches (configure_retry mode initial max_delay max_retries q) done
  sets_emitter :
      {q : BuildQueue} {done : List ℕ} (emits : Bool)
      → Reaches q done
      → Reaches (set_event_emitter emits q) done

-- The channel holds at most `max_size` jobs, there is a worker, and the history is the latest
-- `history_size` of the completed jobs.
pub record IsBounded (q : BuildQueue) (done : List ℕ) : Type 0 where
  pub jobs_fit : length q.jobs ≤ q.max_size
  pub capacity : 0 < q.max_size
  pub has_worker : 0 < q.workers
  pub history_is : q.history ≡ latest q.history_size done
  pub history_capacity : q.history_size ≡ 50

drop-drop_append : (k : ℕ) (xs ys : List ℕ) → k ≤ length xs → drop k xs ++ ys ≡ drop k (xs ++ ys)
drop-drop_append zero xs ys h = refl
drop-drop_append (suc k) [] ys h = absurd (omega (arith, h))
drop-drop_append (suc k) (x ∷ xs) ys h = drop-drop_append k xs ys (omega (arith, h))

add_to_history-latest :
    (n p : ℕ) (done : List ℕ) → add_to_history n p (latest n done) ≡ latest n (done ++ p ∷ [])
unfolding add_to_history
add_to_history-latest n p done =
    let k = length done - n in
    let e : drop k done ++ p ∷ [] ≡ drop k (done ++ p ∷ []) =
      drop-drop_append k done (p ∷ []) (omega arith) in
    rw
      (
        e,
        length-drop k (done ++ p ∷ []),
        sym (drop-add k (length (done ++ p ∷ []) - k - n) (done ++ p ∷ [])),
      )
      (grind (arith, length-append done (p ∷ [])))

-- The capacities and the history stay as they are.
abbrev Keeps : BuildQueue → BuildQueue → Type 0
Keeps q q' =
    (q'.max_size ≡ q.max_size)
    × (q'.workers ≡ q.workers)
    × (q'.history ≡ q.history)
    × (q'.history_size ≡ q.history_size)

kept-IsBounded :
    {q q' : BuildQueue} {done : List ℕ}
    → IsBounded q done
    → length q'.jobs ≤ q'.max_size
    → Keeps q q'
    → IsBounded q' done
kept-IsBounded {done = done} b h (m, w, y, s) = record {
  jobs_fit = h;
  capacity = omega (arith, m, b.capacity);
  has_worker = omega (arith, w, b.has_worker);
  history_is = y ∙ b.history_is ∙ ap (λ n. latest n done) (sym s);
  history_capacity = s ∙ b.history_capacity;
}

enqueue_job-fits :
    (q : BuildQueue) (p : ℕ)
    → length q.jobs ≤ q.max_size
    → length (enqueue_job p q).0.jobs ≤ (enqueue_job p q).0.max_size
unfolding enqueue_job
enqueue_job-fits q p h = grind (arith, length-append q.jobs (p ∷ []))

enqueue_job-Keeps : (q : BuildQueue) (p : ℕ) → Keeps q (enqueue_job p q).0
unfolding enqueue_job
enqueue_job-Keeps q p = ground arith

enqueue-IsBounded :
    {q : BuildQueue} {done : List ℕ} (job : Option ℕ)
    → IsBounded q done
    → IsBounded (enqueue job q).0 done
unfolding enqueue
enqueue-IsBounded none b = b
enqueue-IsBounded {q = q} (some p) b =
    kept-IsBounded b (enqueue_job-fits q p b.jobs_fit) (enqueue_job-Keeps q p)

-- A received job leaves the channel, and nothing else changes.
from_channel-jobs :
    (q : BuildQueue) (jobs : List ℕ) {q' : BuildQueue} {p : ℕ}
    → q.jobs ≡ jobs
    → from_channel jobs q ≡ some (p, q')
    → (q.jobs ≡ p ∷ q'.jobs) × Keeps q q'
unfolding from_channel
from_channel-jobs q [] e h = absurd (none-ne-some _ h)
from_channel-jobs q (x ∷ rest) e h =
    subst (λ r. (q.jobs ≡ r.0 ∷ r.1.jobs) × Keeps q r.1) (some-injective _ _ h)
      (e, (refl, refl, refl, refl))

receive-IsBounded :
    {q q' : BuildQueue} {done : List ℕ} {p : ℕ}
    → IsBounded q done
    → receive q ≡ some (p, q')
    → IsBounded q' done
unfolding receive
receive-IsBounded {q = q} b h =
    let (split, same) = from_channel-jobs q q.jobs refl h in
    kept-IsBounded b (omega (arith, b.jobs_fit, ap length split, same.0)) same

mark_job_completed-IsBounded :
    {q : BuildQueue} {done : List ℕ} (now p : ℕ) (err : Option GoError)
    → IsBounded q done
    → IsBounded (mark_job_completed now p err q) (done ++ p ∷ [])
unfolding mark_job_completed
mark_job_completed-IsBounded {q = q} {done = done} now p err b = record {
  jobs_fit = b.jobs_fit;
  capacity = b.capacity;
  has_worker = b.has_worker;
  history_is =
      ap (add_to_history q.history_size p) b.history_is
      ∙ add_to_history-latest q.history_size p done;
  history_capacity = b.history_capacity;
}

positive_or-pos : (n : ℤ) (d : ℕ) → 0 < d → 0 < positive_or n d
positive_or-pos n d h = ground arith

created-IsBounded :
    (max_size workers : ℤ) (store : ℕ → BuildJob) {q : BuildQueue}
    → new_build_queue max_size workers true store ≡ some q
    → IsBounded q []
unfolding new_build_queue
created-IsBounded max_size workers store h =
    subst (λ q. IsBounded q []) (some-injective _ _ h)
      (record {
        jobs_fit = omega arith;
        capacity = positive_or-pos max_size 100 (omega arith);
        has_worker = positive_or-pos workers 2 (omega arith);
        history_is = refl;
        history_capacity = refl;
      })

stop-IsBounded :
    (q : BuildQueue) {q' : BuildQueue} {done : List ℕ}
    → IsBounded q done
    → stop q ≡ some q'
    → IsBounded q' done
unfolding stop
stop-IsBounded q {done = done} b h = elim (Bool-cases q.stopping) [
  | inl stopping ↦ absurd (none-ne-some _ (rw stopping at h))
  | inr runs ↦
      subst (λ r. IsBounded r done) (some-injective _ _ (rw runs at h))
        (kept-IsBounded b b.jobs_fit (refl, refl, refl, refl))
]

-- However clients and workers interleave their operations on a new queue, stopping included: the
-- channel never holds more jobs than its capacity, which is positive, there is at least one worker,
-- and the history is exactly the latest 50 of the jobs completed so far, in order of completion.
pub reachable-IsBounded : {q : BuildQueue} {done : List ℕ} → Reaches q done → IsBounded q done
unfolding begin_job keep_report emit_completion_events emit configure_retry set_event_emitter
reachable-IsBounded (created max_size workers store h) = created-IsBounded max_size workers store h
reachable-IsBounded (enqueues job r) = enqueue-IsBounded job (reachable-IsBounded r)
reachable-IsBounded (receives r h) = receive-IsBounded (reachable-IsBounded r) h
reachable-IsBounded (begins now p r) =
    let b = reachable-IsBounded r in kept-IsBounded b b.jobs_fit (refl, refl, refl, refl)
reachable-IsBounded (builds p report r) =
    let b = reachable-IsBounded r in kept-IsBounded b b.jobs_fit (refl, refl, refl, refl)
reachable-IsBounded (completes now p err r) =
    mark_job_completed-IsBounded now p err (reachable-IsBounded r)
reachable-IsBounded (reports p err r) =
    let b = reachable-IsBounded r in kept-IsBounded b b.jobs_fit (refl, refl, refl, refl)
reachable-IsBounded (stops {q} r h) = stop-IsBounded q (reachable-IsBounded r) h
reachable-IsBounded (configures mode initial max_delay max_retries r) =
    let b = reachable-IsBounded r in kept-IsBounded b b.jobs_fit (refl, refl, refl, refl)
reachable-IsBounded (sets_emitter emits r) =
    let b = reachable-IsBounded r in kept-IsBounded b b.jobs_fit (refl, refl, refl, refl)
