-- ===== src/Debouncer/Loop/Tests.antt =====
-- Runs of the debouncer, and its theorems at concrete inputs.
use Prim.Native.String.{String}
use docbuilder.Common.{ℕ, ◌+◌, Bool, true, false, ◌≡◌, refl, some, List, [], ◌∷◌, arith}
use docbuilder.Common.Int.{pos}
use docbuilder.Common.Text.{put}
use docbuilder.Debouncer.{
  BuildRequested, BuildNow, World, merge_snapshot, is_duplicate, on_request, planned_job_id,
  try_emit, try_emit_after_running,
}
use docbuilder.Debouncer.Loop.Account.{
  accepted, outstanding, sent_requests, run_accounts, MaySend, step-MaySend,
}
use docbuilder.Debouncer.Loop.Armed.{
  Reaches, begins, goes, wake_event, wake_time, pending_wakes, poll_strands,
}
use docbuilder.Debouncer.Loop.Burst.{receive, coalesced, burst_coalesces}
use docbuilder.Debouncer.Loop.{
  Config, Loop, Event, request, quiet_fires, max_fires, poll_fires, enabled, step, round, start,
  run, fresh,
}

abbrev cfg : Config
cfg = record { quiet_window = pos 5; max_delay = pos 50; poll_interval = pos 2 }

abbrev idle : ℕ → World
idle now = record { now = now; polled_running = false; running = false; publishes = true }

abbrev building : ℕ → World
building now = record { now = now; polled_running = true; running = true; publishes = true }

abbrev ask : String → Bool → BuildRequested
ask id immediate = record {
  job_id = id;
  immediate = immediate;
  reason = "push";
  repo_url = "https://git.example/docs";
  branch = "main";
  snapshot = ("docs", id) ∷ ("", "skipped") ∷ [];
  requested_at = 0;
}

debouncer : Unit {0}
unfolding run round step enabled start fresh try_emit_after_running on_request is_duplicate
    merge_snapshot put
debouncer = tt

-- Two requests, of which the second comes before the quiet window is over.
abbrev calm : List (World × Event)
calm =
    (idle 10, request (ask "a" false))
    ∷ (idle 14, request (ask "b" false))
    ∷ (idle 16, quiet_fires)
    ∷ (idle 19, quiet_fires)
    ∷ []

abbrev after : List (World × Event) → Loop
after = run cfg (start (fresh true))

calm_counts :
    (sent_requests (after calm).sent ≡ 2)
    × (outstanding (after calm).d ≡ 0)
    × (accepted cfg (start (fresh true)) calm ≡ 2)
unfolding debouncer accepted outstanding sent_requests
calm_counts = (refl, refl, refl)

run_accounts_example :
    sent_requests (after calm).sent + outstanding (after calm).d
    ≡ accepted cfg (start (fresh true)) calm
run_accounts_example = run_accounts cfg true calm

abbrev waiting : Loop
waiting = step cfg (idle 10) (start (fresh true)) (request (ask "a" false))

waiting_reached : Reaches cfg waiting
unfolding enabled
waiting_reached = goes (idle 10) (request (ask "a" false)) (begins true) refl (λ h. h)

pending_wakes_example :
    let s' = step cfg (idle 15) waiting (wake_event waiting) in
    (evt : BuildNow) × (enabled (idle 15) waiting (wake_event waiting) ≡ true)
    × (s'.sent ≡ evt ∷ waiting.sent)
    × (evt.request_count ≡ waiting.d.request_count)
    × (s'.d.pending ≡ false)
unfolding debouncer wake_time
pending_wakes_example =
    pending_wakes cfg waiting (idle 15) waiting_reached refl
      (record { late_enough = omega arith; idle_at_poll = refl; idle = refl; accepts = refl })

-- A follow-up is planned, an immediate request is emitted before the poll, and then a request
-- opens a window that the poll closes.
abbrev stale : List (World × Event)
stale =
    (building 0, request (ask "a" true))
    ∷ (idle 1, request (ask "b" true))
    ∷ (idle 1, request (ask "c" false))
    ∷ []

poll_due : enabled (idle 2) (after stale) poll_fires ≡ true
unfolding debouncer
poll_due = refl

poll_strands_example :
    let s' = step cfg (idle 2) (after stale) poll_fires in
    (s'.d.pending ≡ true)
    × (s'.sent ≡ (after stale).sent)
    × (enabled (idle 1000) s' quiet_fires ≡ false)
    × (enabled (idle 1000) s' max_fires ≡ false)
    × (enabled (idle 1000) s' poll_fires ≡ false)
unfolding debouncer
poll_strands_example = poll_strands cfg (idle 2) (idle 1000) (after stale) refl refl

step-MaySend_example : MaySend (idle 15) waiting (step cfg (idle 15) waiting quiet_fires)
step-MaySend_example = step-MaySend cfg (idle 15) waiting quiet_fires

planned_example : planned_job_id waiting.d ≡ some "a"
unfolding debouncer planned_job_id
planned_example = refl

abbrev sent_a : BuildNow
sent_a = record {
  job_id = "a";
  triggered_at = 15;
  request_count = 1;
  last_reason = "push";
  last_repo_url = "https://git.example/docs";
  last_branch = "main";
  snapshot = ("docs", "a") ∷ [];
  first_request = 10;
  last_request = 10;
  debounce_cause = "quiet";
}

sent_example : (try_emit (idle 15) "quiet" waiting.d).sent ≡ some sent_a
unfolding debouncer
sent_example = refl

burst_coalesces_example :
    let a =
      try_emit
        (idle 20)
        "quiet"
        (receive ((idle 10, ask "a" false) ∷ (idle 14, ask "b" false) ∷ []) (fresh true)) in
    (a.sent
      ≡ some (coalesced (idle 20) "quiet" (idle 10, ask "a" false) ((idle 14, ask "b" false) ∷ [])))
    × (a.after.pending ≡ false)
unfolding fresh is_duplicate
burst_coalesces_example =
    burst_coalesces (idle 20) (idle 10) (ask "a" false) ((idle 14, ask "b" false) ∷ []) (fresh true)
      "quiet" refl refl refl refl
