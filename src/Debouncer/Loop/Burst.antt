-- ===== src/Debouncer/Loop/Burst.antt =====
-- internal/daemon/build_debouncer.go: a burst of requests becomes one BuildNow.
use Prim.Native.String.{String}
use docbuilder.Common.{◌+◌, true, false, ◌≡◌, some, List, [], ◌∷◌, arith, length}
use docbuilder.Common.Text.{StringMap}
use docbuilder.Debouncer.{
  BuildRequested, BuildNow, Debouncer, World, merge_snapshot, is_duplicate, request_time,
  on_request, try_emit,
}
use docbuilder.Debouncer.Loop.Account.{pending-not-duplicate}

abbrev pub Arrival : Type 0
Arrival = World × BuildRequested

-- The debouncer after it has received the requests in turn.
pub receive : List Arrival → Debouncer → Debouncer
receive [] d = d
receive ((w, r) ∷ rest) d = receive rest (on_request w r d)

abbrev pub last_of : Arrival → List Arrival → Arrival
last_of a [] = a
last_of a (b ∷ rest) = last_of b rest

-- The entries of all the requests, a later one in place of an earlier one for the same key.
pub merge_all : List Arrival → StringMap String → StringMap String
merge_all [] m = m
merge_all ((w, r) ∷ rest) m = merge_all rest (merge_snapshot r.snapshot m)

-- A debouncer in which the latest recorded request is `a`.
record IsLatest (a : Arrival) (d : Debouncer) : Type 0 where
  busy : d.pending ≡ true
  last_at : d.last_request_at ≡ request_time a.0 a.1
  reason : d.last_reason ≡ a.1.reason
  repo_url : d.last_repo_url ≡ a.1.repo_url
  branch : d.last_branch ≡ a.1.branch
  job_id : d.last_job_id ≡ a.1.job_id

on_request-IsLatest :
    (w : World) (r : BuildRequested) (d : Debouncer)
    → is_duplicate r d ≡ false
    → IsLatest (w, r) (on_request w r d)
unfolding on_request
on_request-IsLatest w r d new = rw new (ground arith)

on_request_joins :
    (w : World) (r : BuildRequested) (d : Debouncer)
    → d.pending ≡ true
    → let d' = on_request w r d in
      (d'.request_count ≡ d.request_count + 1)
      × (d'.first_request_at ≡ d.first_request_at)
      × (d'.snapshot ≡ merge_snapshot r.snapshot d.snapshot)
unfolding on_request
on_request_joins w r d busy = rw (pending-not-duplicate r d busy) (ground arith)

receive-IsLatest :
    (rest : List Arrival) (a : Arrival) (d : Debouncer)
    → IsLatest a d
    → IsLatest (last_of a rest) (receive rest d)
unfolding receive
receive-IsLatest [] a d h = h
receive-IsLatest ((w, r) ∷ rest) a d h =
    receive-IsLatest rest (w, r) (on_request w r d)
      (on_request-IsLatest w r d (pending-not-duplicate r d h.busy))

receive_joins :
    (rest : List Arrival) (a : Arrival) (d : Debouncer)
    → IsLatest a d
    → let d' = receive rest d in
      (d'.request_count ≡ d.request_count + length rest)
      × (d'.first_request_at ≡ d.first_request_at)
      × (d'.snapshot ≡ merge_all rest d.snapshot)
unfolding receive merge_all
receive_joins [] a d h = ground arith
receive_joins ((w, r) ∷ rest) a d h =
    let next = on_request-IsLatest w r d (pending-not-duplicate r d h.busy) in
    ground (arith, on_request_joins w r d h.busy, receive_joins rest (w, r) (on_request w r d) next)

-- What one event for the requests `a ∷ rest` says.
pub coalesced : World → String → Arrival → List Arrival → BuildNow
coalesced w cause a rest =
    let last = last_of a rest in
    record {
      job_id = last.1.job_id;
      triggered_at = w.now;
      request_count = length (a ∷ rest);
      last_reason = last.1.reason;
      last_repo_url = last.1.repo_url;
      last_branch = last.1.branch;
      snapshot = merge_all (a ∷ rest) [];
      first_request = request_time a.0 a.1;
      last_request = request_time last.0 last.1;
      debounce_cause = cause;
    }

on_request_begins :
    (w : World) (r : BuildRequested) (d : Debouncer)
    → d.pending ≡ false
    → is_duplicate r d ≡ false
    → let d' = on_request w r d in
      (d'.request_count ≡ 1)
      × (d'.first_request_at ≡ request_time w r)
      × (d'.snapshot ≡ merge_snapshot r.snapshot [])
unfolding on_request
on_request_begins w r d idle new = rw new (ground arith)

-- A burst that begins with nothing pending and with a request that is no duplicate, and that is
-- then emitted while no build is running and the bus accepts: the one event counts every request,
-- names the job, reason, repository, branch and time of the last one and the time of the first
-- one, and merges their snapshots; nothing stays pending.
pub burst_coalesces :
    (w w₀ : World) (r₀ : BuildRequested) (rest : List Arrival) (d : Debouncer) (cause : String)
    → d.pending ≡ false
    → is_duplicate r₀ d ≡ false
    → w.running ≡ false
    → w.publishes ≡ true
    → let a = try_emit w cause (receive ((w₀, r₀) ∷ rest) d) in
      (a.sent ≡ some (coalesced w cause (w₀, r₀) rest)) × (a.after.pending ≡ false)
unfolding try_emit coalesced
burst_coalesces w w₀ r₀ rest d cause idle new calm accepts =
    let d₁ = on_request w₀ r₀ d in
    let first = on_request-IsLatest w₀ r₀ d new in
    let latest = receive-IsLatest rest (w₀, r₀) d₁ first in
    let joined = receive_joins rest (w₀, r₀) d₁ first in
    let begun = on_request_begins w₀ r₀ d idle new in unfold receive merge_all in ground arith
