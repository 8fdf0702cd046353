-- ===== src/Debouncer/Loop.antt =====
-- internal/daemon/build_debouncer.go: `NewBuildDebouncer` and the select loop of `Run`.
-- A channel variable that is nil is a timer that is not `selected`. A timer fires only while it is
-- `running`, at its `deadline` or later, and firing stops it until it is reset.
pub mod Armed
pub mod Account
pub mod Burst
mod Tests
use Prim.Native.String.{String}
use docbuilder.Common.{
  ℕ, ◌+◌, Bool, true, false, not, ◌&&◌, Option, none, some, List, [], ◌∷◌, if◌then◌else◌, leb,
}
use docbuilder.Common.Int.{ℤ, pos, is_pos, pos_part}
use docbuilder.Debouncer.{
  BuildRequested, BuildNow, MetricCall, Debouncer, World, on_request, should_start_max_timer,
  should_poll_after_run, Attempt, try_emit, try_emit_after_running,
}

-- BuildDebouncerConfig, less its callbacks.
pub record Config : Type 0 where
  pub quiet_window : ℤ
  pub max_delay : ℤ
  pub poll_interval : ℤ

pub data ConfigError : Type 0 where
  bus_required quiet_window_not_positive max_delay_not_positive : ConfigError

pub data Created : Type 0 where
  created : Config → Debouncer → Created
  refused : ConfigError → Created

-- 250 * time.Millisecond
abbrev default_poll_interval : ℕ
default_poll_interval = 250000000

pub fresh : Bool → Debouncer
fresh metered = record {
  pending = false;
  pending_after_run = false;
  first_request_at = 0;
  last_request_at = 0;
  last_reason = "";
  last_repo_url = "";
  last_branch = "";
  last_job_id = "";
  last_emitted_job_id = "";
  request_count = 0;
  polling_after_run = false;
  snapshot = [];
  metered = metered;
  calls = [];
}

-- NewBuildDebouncer; `has_bus` tells whether the bus is not nil.
pub new_build_debouncer : Bool → Bool → Config → Created
unfolding fresh
new_build_debouncer has_bus metered cfg =
    if not has_bus
    then refused bus_required
    else if not (is_pos cfg.quiet_window)
    then refused quiet_window_not_positive
    else if not (is_pos cfg.max_delay)
    then refused max_delay_not_positive
    else let poll =
        if is_pos cfg.poll_interval then cfg.poll_interval else pos default_poll_interval in
      created (record cfg { poll_interval = poll }) (fresh metered)

pub record Timer : Type 0 where
  pub selected : Bool
  pub running : Bool
  pub deadline : ℕ

-- The variables of `Run`, with the events that the bus has accepted, newest first.
pub record Loop : Type 0 where
  pub d : Debouncer
  pub quiet : Timer
  pub max : Timer
  pub poll : Timer
  pub sent : List BuildNow

pub data Event : Type 0 where
  request : BuildRequested → Event
  quiet_fires max_fires poll_fires : Event

-- resetTimer, and the channel assigned to its variable
abbrev arm : ℕ → ℤ → Timer
arm now after = record { selected = true; running = true; deadline = now + pos_part after }

-- The variable set to nil.
abbrev deselect : Timer → Timer
deselect t = record t { selected = false }

-- The value is received from the channel.
abbrev consume : Timer → Timer
consume t = record t { running = false }

abbrev pub is_live : Timer → Bool
is_live t = t.selected && t.running

abbrev is_due : ℕ → Timer → Bool
is_due now t = is_live t && leb t.deadline now

abbrev push : Option BuildNow → List BuildNow → List BuildNow
push none l = l
push (some evt) l = evt ∷ l

abbrev with_attempt : Loop → Attempt → Loop
with_attempt s a = record s { d = a.after; sent = push a.sent s.sent }

-- Polling starts only where a build is pending after the running one.
start_polling : Config → World → Loop → Loop
unfolding should_poll_after_run
start_polling cfg w s =
    if should_poll_after_run s.d && not s.poll.selected
    then record s { poll = arm w.now cfg.poll_interval }
    else s

settle_pair : Loop → Loop
settle_pair s = record s { quiet = deselect s.quiet; max = deselect s.max }

-- What an immediate request leads to, once it is recorded in `d`.
emit_at_once : Config → World → Debouncer → Loop → Loop
unfolding start_polling settle_pair
emit_at_once cfg w d s =
    let a = try_emit w "immediate" d in
    let s' = with_attempt s a in if a.settled then settle_pair s' else start_polling cfg w s'

-- What any other request leads to.
open_window : Config → World → Debouncer → Loop → Loop
unfolding start_polling
open_window cfg w d s =
    let top = if should_start_max_timer d then arm w.now cfg.max_delay else s.max in
    start_polling cfg w (record s { d = d; quiet = arm w.now cfg.quiet_window; max = top })

-- The case of a request.
on_request_event : Config → World → BuildRequested → Loop → Loop
unfolding emit_at_once open_window
on_request_event cfg w req s =
    let d = on_request w req s.d in
    if req.immediate then emit_at_once cfg w d s else open_window cfg w d s

-- The cases of the quiet and the maximum timer, whose value has been received.
on_window_event : Config → World → String → Loop → Loop
unfolding start_polling settle_pair
on_window_event cfg w cause s =
    let a = try_emit w cause s.d in
    let s' = with_attempt s a in start_polling cfg w (if a.settled then settle_pair s' else s')

-- The case of the polling timer.
on_poll_event : Config → World → Loop → Loop
unfolding start_polling settle_pair
on_poll_event cfg w s =
    let a = try_emit_after_running w s.d in
    let s' = with_attempt s a in
    if a.settled
    then record (settle_pair s') { poll = deselect s.poll }
    else start_polling cfg w (record s' { poll = arm w.now cfg.poll_interval })

-- Whether the select statement can take the case.
pub enabled : World → Loop → Event → Bool
enabled w s (request _) = true
enabled w s quiet_fires = is_due w.now s.quiet
enabled w s max_fires = is_due w.now s.max
enabled w s poll_fires = is_due w.now s.poll

-- One round of the loop, on a case that is enabled.
pub step : Config → World → Loop → Event → Loop
unfolding on_request_event on_window_event on_poll_event
step cfg w s (request req) = on_request_event cfg w req s
step cfg w s quiet_fires = on_window_event cfg w "quiet" (record s { quiet = consume s.quiet })
step cfg w s max_fires = on_window_event cfg w "max_delay" (record s { max = consume s.max })
step cfg w s poll_fires = on_poll_event cfg w (record s { poll = consume s.poll })

abbrev stopped : Timer
stopped = record { selected = false; running = false; deadline = 0 }

-- `Run` before its loop: the timers are stopped, and no channel is selected.
pub start : Debouncer → Loop
start d = record { d = d; quiet = stopped; max = stopped; poll = stopped; sent = [] }

-- A round whose case is not enabled does not happen.
pub round : Config → World → Loop → Event → Loop
round cfg w s e = if enabled w s e then step cfg w s e else s

-- The loop over a sequence of rounds.
pub run : Config → Loop → List (World × Event) → Loop
run cfg s [] = s
run cfg s ((w, e) ∷ rest) = run cfg (round cfg w s e) rest
