-- ===== src/Debouncer/Loop/Armed.antt =====
-- internal/daemon/build_debouncer.go: whether a pending build still has a timer that will fire.
use Prim.Native.String.{String}
use docbuilder.Common.{
  ℕ, ◌≤◌, ◌||◌, if◌then◌else◌, Bool, true, false, ◌≡◌, ◌⊎◌, inl, inr, ◌∷◌, arith, Bool-cases,
}
use docbuilder.Debouncer.{
  BuildRequested, BuildNow, Debouncer, World, is_duplicate, on_request, build_now, try_emit,
  try_emit_after_running,
}
use docbuilder.Debouncer.Loop.{
  Config, Timer, Loop, Event, request, quiet_fires, max_fires, poll_fires, is_live, enabled,
  emit_at_once, open_window, on_request_event, step, start, fresh,
}

-- A timer that is running and whose channel is selected.
abbrev pub IsLive : Timer → Type 0
IsLive t = is_live t ≡ true

-- What holds between two rounds.
pub record IsArmed (s : Loop) : Type 0 where
  pub after_run_pending : s.d.pending_after_run ≡ true → s.d.pending ≡ true
  pub polling_after_run : s.d.polling_after_run ≡ true → s.d.pending_after_run ≡ true
  pub poll_runs : s.poll.selected ≡ true → s.poll.running ≡ true
  pub after_run_polls : s.d.pending_after_run ≡ true → s.poll.selected ≡ true
  pub wakes : s.d.pending ≡ true → IsLive s.quiet ⊎ (IsLive s.max ⊎ (s.d.pending_after_run ≡ true))

-- The polling timer fires although no build is pending after the running one.
abbrev pub IsStalePoll : Loop → Event → Type 0
IsStalePoll s poll_fires = s.d.pending_after_run ≡ false
IsStalePoll s _ = ⊥

start-IsArmed : (metered : Bool) → IsArmed (start (fresh metered))
unfolding start fresh
start-IsArmed metered = ground arith

on_request_flags :
    (w : World) (r : BuildRequested) (d : Debouncer)
    → let d' = on_request w r d in
      (d'.pending_after_run ≡ d.pending_after_run)
      × (d'.polling_after_run ≡ d.polling_after_run)
      × (d.pending ≡ true → d'.pending ≡ true)
unfolding on_request
on_request_flags w r d = elim (Bool-cases (is_duplicate r d)) [
  | inl old ↦ rw old (ground arith)
  | inr new ↦ rw new (ground arith)
]

-- The two ways on from a request that is recorded in `d`.
module _ (cfg : Config) (w : World) (s : Loop) (d : Debouncer) (inv : IsArmed s)
    (same : d.pending_after_run ≡ s.d.pending_after_run)
    (polling : d.polling_after_run ≡ s.d.polling_after_run)
    (kept : s.d.pending ≡ true → d.pending ≡ true) where
  emit_at_once-IsArmed : IsArmed (emit_at_once cfg w d s)
  unfolding emit_at_once try_emit
  emit_at_once-IsArmed = ground arith

  open_window-IsArmed : IsArmed (open_window cfg w d s)
  unfolding open_window
  open_window-IsArmed = ground arith

on_request_event-IsArmed :
    (cfg : Config) (w : World) (r : BuildRequested) (s : Loop)
    → IsArmed s
    → IsArmed (on_request_event cfg w r s)
unfolding on_request_event
on_request_event-IsArmed cfg w r s inv =
    let (same, polling, kept) = on_request_flags w r s.d in
    elim (Bool-cases r.immediate) [
      | inl now ↦ simp now (emit_at_once-IsArmed cfg w s (on_request w r s.d) inv same polling kept)
      | inr later ↦
          simp later (open_window-IsArmed cfg w s (on_request w r s.d) inv same polling kept)
    ]

-- Every round keeps the invariant, except a poll that is no longer wanted.
pub step-IsArmed :
    (cfg : Config) (w : World) (s : Loop) (e : Event)
    → IsArmed s
    → enabled w s e ≡ true
    → ¬ IsStalePoll s e
    → IsArmed (step cfg w s e)
unfolding step try_emit try_emit_after_running
step-IsArmed cfg w s (request r) inv on wanted = on_request_event-IsArmed cfg w r s inv
step-IsArmed cfg w s quiet_fires inv on wanted = ground arith
step-IsArmed cfg w s max_fires inv on wanted = ground arith
step-IsArmed cfg w s poll_fires inv on wanted = ground arith

-- The loop states that `Run` reaches while no poll fires that is no longer wanted.
pub data Reaches (cfg : Config) : Loop → Type 0 where
  begins : (metered : Bool) → Reaches cfg (start (fresh metered))
  goes :
      {s : Loop} (w : World) (e : Event)
      → Reaches cfg s
      → enabled w s e ≡ true
      → ¬ IsStalePoll s e
      → Reaches cfg (step cfg w s e)

pub Reaches-IsArmed : {cfg : Config} {s : Loop} → Reaches cfg s → IsArmed s
Reaches-IsArmed (begins metered) = start-IsArmed metered
Reaches-IsArmed {cfg} (goes {s} w e r on wanted) =
    step-IsArmed cfg w s e (Reaches-IsArmed r) on wanted

-- A world in which no build runs and the bus accepts events, at time `t` or later.
pub record IsQuietWorld (t : ℕ) (w : World) : Type 0 where
  pub late_enough : t ≤ w.now
  pub idle_at_poll : w.polled_running ≡ false
  pub idle : w.running ≡ false
  pub accepts : w.publishes ≡ true

-- The timer event that is due to send the pending build.
unfoldable pub wake_event : Loop → Event
wake_event s =
    if is_live s.quiet then quiet_fires else if is_live s.max then max_fires else poll_fires

-- The time from which that event can happen.
unfoldable pub wake_time : Loop → ℕ
wake_time s =
    if is_live s.quiet
    then s.quiet.deadline
    else if is_live s.max
    then s.max.deadline
    else s.poll.deadline

wake_cause : Loop → String
wake_cause s =
    if is_live s.quiet then "quiet" else if is_live s.max then "max_delay" else "after_running"

abbrev at_wake : Loop → Debouncer
at_wake s =
    if is_live s.quiet || is_live s.max then s.d else record s.d { polling_after_run = true }

module _ (cfg : Config) (s : Loop) (w : World) (inv : IsArmed s) (busy : s.d.pending ≡ true)
    (calm : IsQuietWorld (wake_time s) w) where
  wake_event-enabled : enabled w s (wake_event s) ≡ true
  unfolding enabled wake_event wake_time
  wake_event-enabled = ground arith

  wake_event-sends :
      let s' = step cfg w s (wake_event s) in
      (s'.sent ≡ build_now w (wake_cause s) (at_wake s) ∷ s.sent) × (s'.d.pending ≡ false)
  unfolding wake_event step try_emit_after_running wake_cause
  wake_event-sends = ground arith

-- In every state that `Run` reaches while no unwanted poll fires, with a build pending: from the
-- time `wake_time` on, the timer event `wake_event` can happen, and if no build is running and the
-- bus accepts, it sends one BuildNow, which counts all pending requests, and nothing stays pending.
pub pending_wakes :
    (cfg : Config) (s : Loop) (w : World)
    → Reaches cfg s
    → s.d.pending ≡ true
    → IsQuietWorld (wake_time s) w
    → let s' = step cfg w s (wake_event s) in
      (evt : BuildNow) × (enabled w s (wake_event s) ≡ true)
      × (s'.sent ≡ evt ∷ s.sent)
      × (evt.request_count ≡ s.d.request_count)
      × (s'.d.pending ≡ false)
unfolding build_now
pending_wakes cfg s w r busy calm =
    let inv = Reaches-IsArmed r in
    let sends = wake_event-sends cfg s w inv busy calm in
    (
      build_now w (wake_cause s) (at_wake s),
      wake_event-enabled cfg s w inv busy calm,
      sends.0,
      ground arith,
      sends.1,
    )

-- A poll that fires while requests are pending but no build is pending after the running one:
-- the requests stay pending, nothing is sent, and no timer event can happen afterwards, at any time.
pub poll_strands :
    (cfg : Config) (w w' : World) (s : Loop)
    → s.d.pending ≡ true
    → s.d.pending_after_run ≡ false
    → let s' = step cfg w s poll_fires in
      (s'.d.pending ≡ true)
      × (s'.sent ≡ s.sent)
      × (enabled w' s' quiet_fires ≡ false)
      × (enabled w' s' max_fires ≡ false)
      × (enabled w' s' poll_fires ≡ false)
unfolding step enabled try_emit_after_running
poll_strands cfg w w' s busy direct = ground arith
