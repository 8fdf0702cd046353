-- ===== src/Debouncer/Loop/Account.antt =====
-- internal/daemon/build_debouncer.go: every accepted request is counted in one BuildNow, or pending.
use Prim.Native.String.{String}
use docbuilder.Common.{
  ℕ, ◌+◌, ◌<◌, Bool, true, false, ◌≡◌, refl, ◌⊎◌, inl, inr, Option, none, some, List, [], ◌∷◌,
  arith, if◌then◌else◌, Bool-cases,
}
use docbuilder.Debouncer.{
  BuildRequested, BuildNow, Debouncer, World, is_duplicate, on_request, planned_job_id,
  should_start_max_timer, try_emit, try_emit_after_running,
}
use docbuilder.Debouncer.Loop.{
  Config, Loop, Event, request, quiet_fires, max_fires, poll_fires, enabled, emit_at_once,
  open_window, on_request_event, step, round, start, run, fresh,
}

-- The requests that are recorded and not yet sent.
unfoldable pub outstanding : Debouncer → ℕ
outstanding d = if d.pending then d.request_count else 0

-- The requests that the sent events say they stand for.
unfoldable pub sent_requests : List BuildNow → ℕ
sent_requests [] = 0
sent_requests (evt ∷ l) = evt.request_count + sent_requests l

-- 1 for a request that is not a duplicate.
unfoldable pub newly_accepted : Loop → Event → ℕ
newly_accepted s (request req) = if is_duplicate req s.d then 0 else 1
newly_accepted s _ = 0

-- The same for a round, which may not happen.
unfoldable pub accepted_by : World → Loop → Event → ℕ
unfolding newly_accepted
accepted_by w s e = if enabled w s e then newly_accepted s e else 0

-- The requests that a run accepts.
unfoldable pub accepted : Config → Loop → List (World × Event) → ℕ
unfolding accepted_by
accepted cfg s [] = 0
accepted cfg s ((w, e) ∷ rest) = accepted_by w s e + accepted cfg (round cfg w s e) rest

abbrev total : Loop → ℕ
total s = sent_requests s.sent + outstanding s.d

on_request-outstanding :
    (w : World) (r : BuildRequested) (s : Loop)
    → outstanding (on_request w r s.d) ≡ outstanding s.d + newly_accepted s (request r)
unfolding on_request outstanding newly_accepted
on_request-outstanding w r s = elim (Bool-cases (is_duplicate r s.d)) [
  | inl old ↦ rw old (ground arith)
  | inr new ↦ rw new (ground arith)
]

emit_at_once-total :
    (cfg : Config) (w : World) (s : Loop) (d : Debouncer)
    → total (emit_at_once cfg w d s) ≡ sent_requests s.sent + outstanding d
unfolding emit_at_once try_emit outstanding sent_requests
emit_at_once-total cfg w s d = ground arith

open_window-total :
    (cfg : Config) (w : World) (s : Loop) (d : Debouncer)
    → total (open_window cfg w d s) ≡ sent_requests s.sent + outstanding d
unfolding open_window outstanding sent_requests
open_window-total cfg w s d = ground arith

request_total :
    (cfg : Config) (w : World) (s : Loop) (r : BuildRequested)
    → total (on_request_event cfg w r s) ≡ total s + newly_accepted s (request r)
unfolding on_request_event
request_total cfg w s r =
    let kept = on_request-outstanding w r s in
    elim (Bool-cases r.immediate) [
      | inl now ↦ simp now (omega (arith, kept, emit_at_once-total cfg w s (on_request w r s.d)))
      | inr later ↦ simp later (omega (arith, kept, open_window-total cfg w s (on_request w r s.d)))
    ]

total-step :
    (cfg : Config) (w : World) (s : Loop) (e : Event)
    → total (step cfg w s e) ≡ total s + newly_accepted s e
unfolding step
total-step cfg w s (request r) = request_total cfg w s r
total-step cfg w s quiet_fires =
    unfold newly_accepted try_emit outstanding sent_requests in ground arith
total-step cfg w s max_fires =
    unfold newly_accepted try_emit outstanding sent_requests in ground arith
total-step cfg w s poll_fires =
    unfold newly_accepted try_emit_after_running outstanding sent_requests in ground arith

total-round :
    (cfg : Config) (w : World) (s : Loop) (e : Event)
    → total (round cfg w s e) ≡ total s + accepted_by w s e
unfolding round accepted_by
total-round cfg w s e = elim (Bool-cases (enabled w s e)) [
  | inl on ↦ rw on (total-step cfg w s e)
  | inr off ↦ rw off (omega arith)
]

total-run :
    (cfg : Config) (rounds : List (World × Event)) (s : Loop)
    → total (run cfg s rounds) ≡ total s + accepted cfg s rounds
unfolding run accepted
total-run cfg [] s = omega arith
total-run cfg ((w, e) ∷ rest) s =
    omega (arith, total-round cfg w s e, total-run cfg rest (round cfg w s e))

total-start : (metered : Bool) → total (start (fresh metered)) ≡ 0
unfolding outstanding sent_requests start fresh
total-start metered = refl

-- After any rounds of `Run`, in any order and with any answers of the world: the request counts of
-- the BuildNow events sent add up, with the requests still pending, to the requests accepted.
pub run_accounts :
    (cfg : Config) (metered : Bool) (rounds : List (World × Event))
    → let s = run cfg (start (fresh metered)) rounds in
      sent_requests s.sent + outstanding s.d ≡ accepted cfg (start (fresh metered)) rounds
run_accounts cfg metered rounds =
    omega (arith, total-run cfg rounds (start (fresh metered)), total-start metered)

-- The list less its newest event, and the job of that event.
abbrev pub older : List BuildNow → List BuildNow
older [] = []
older (_ ∷ l) = l

abbrev pub newest_job : List BuildNow → Option String
newest_job [] = none
newest_job (evt ∷ _) = some evt.job_id

-- What a round may do to the events sent: nothing, or add one.
abbrev pub MaySend : World → Loop → Loop → Type 0
MaySend w s s' =
    (s'.sent ≡ s.sent)
    ⊎ ((older s'.sent ≡ s.sent)
        × (w.running ≡ false)
        × (w.publishes ≡ true)
        × (s'.d.pending ≡ false)
        × (newest_job s'.sent ≡ some s'.d.last_emitted_job_id))

emit_at_once-MaySend :
    (cfg : Config) (w : World) (s : Loop) (d : Debouncer) → MaySend w s (emit_at_once cfg w d s)
unfolding emit_at_once try_emit
emit_at_once-MaySend cfg w s d = ground arith

-- A round sends at most one BuildNow, and only while no build is running and the bus accepts it;
-- then nothing is pending, and the job of the event is remembered as the last one emitted.
pub step-MaySend : (cfg : Config) (w : World) (s : Loop) (e : Event) → MaySend w s (step cfg w s e)
unfolding step on_request_event
step-MaySend cfg w s (request r) = elim (Bool-cases r.immediate) [
  | inl now ↦ simp now (emit_at_once-MaySend cfg w s (on_request w r s.d))
  | inr later ↦ simp later (unfold open_window in ground arith)
]
step-MaySend cfg w s quiet_fires = unfold try_emit in ground arith
step-MaySend cfg w s max_fires = unfold try_emit in ground arith
step-MaySend cfg w s poll_fires = unfold try_emit_after_running in ground arith

-- The identifier that `PlannedJobID` promises is that of the event that the next emission sends.
pub planned_job_id-kept :
    (w : World) (cause : String) (d : Debouncer) (id : String) (evt : BuildNow)
    → planned_job_id d ≡ some id
    → (try_emit w cause d).sent ≡ some evt
    → evt.job_id ≡ id
unfolding planned_job_id try_emit
planned_job_id-kept w cause d id evt planned sent = ground arith

pub pending-not-duplicate :
    (r : BuildRequested) (d : Debouncer) → d.pending ≡ true → is_duplicate r d ≡ false
unfolding is_duplicate
pending-not-duplicate r d busy = ground arith

recorded :
    (w : World) (r : BuildRequested) (d : Debouncer)
    → d.pending ≡ true
    → let d' = on_request w r d in (d'.pending ≡ true) × (d'.request_count ≡ d.request_count + 1)
unfolding on_request
recorded w r d busy = rw (pending-not-duplicate r d busy) (ground arith)

-- While requests are pending, a further request does not move the deadline of the maximum delay:
-- it leaves that timer as it is, or the pending build is sent at once.
pub max_not_postponed :
    (cfg : Config) (w : World) (s : Loop) (r : BuildRequested)
    → s.d.pending ≡ true
    → 0 < s.d.request_count
    → let s' = step cfg w s (request r) in (s'.max ≡ s.max) ⊎ (s'.d.pending ≡ false)
unfolding step on_request_event
max_not_postponed cfg w s r busy counted =
    let (still, more) = recorded w r s.d busy in
    elim (Bool-cases r.immediate) [
      | inl now ↦ simp now (unfold emit_at_once try_emit in ground arith)
      | inr later ↦ simp later (unfold open_window should_start_max_timer in ground arith)
    ]
