-- ===== src/Projection/Tests.antt =====
-- Two builds that overlap, and the theorems about the build history at their events.
use Prim.Native.String.{String}
use docbuilder.Common.{ℕ, ◌≡◌, refl, arith, none, some, true, List, [], ◌∷◌}
use docbuilder.Common.Int.{pos}
use docbuilder.Common.Text.{get, put}
use docbuilder.Projection.Counting.{repos_of, files_of, clones, finds, sum_for, rebuild-counts}
use docbuilder.Projection.Invariant.{created, applies, IsWellFormed, reachable-IsWellFormed}
use docbuilder.Projection.Sorting.{newest_first, rebuild-newest_first, last_completed-apply_event}
use docbuilder.Projection.{
  build_started, repository_cloned, documents_discovered, build_completed, build_failed, Event,
  BuildSummary, BuildHistoryProjection, new_build_history_projection, contains, ends_build,
  is_skipped, Payload, apply_event, apply_all, start_time, move_up, sort_history, rebuild_from,
  rebuild, get_build, get_last_completed_build,
}

abbrev event : String → ℕ → Payload → Event
event id now load = record { build_id = id; timestamp = now; payload = load }

-- The first build to start is the last to end.
abbrev overlap : List Event
overlap =
    event "long" 1 (build_started none)
    ∷ event "short" 2 (build_started none)
    ∷ event "short" 3 repository_cloned
    ∷ event "short" 4 (documents_discovered (some 7))
    ∷ event "short" 5 (build_completed none)
    ∷ event "long" 9 (build_failed none)
    ∷ []

abbrev empty_history : BuildHistoryProjection
empty_history = record { builds = []; history = []; max_size = 100; last_sync = 0 }

new_is_empty : new_build_history_projection (pos 0) ≡ empty_history
unfolding new_build_history_projection
new_is_empty = refl

-- While the events arrive, the history is in the order in which the builds ended.
live_order : (apply_all overlap empty_history).history ≡ "long" ∷ "short" ∷ []
unfolding apply_all apply_event is_skipped ends_build contains get put
live_order = refl

-- A rebuild from the same events sorts it by start.
rebuilt_order : (rebuild 20 (some overlap) empty_history).0.history ≡ "short" ∷ "long" ∷ []
unfolding rebuild rebuild_from apply_all apply_event is_skipped ends_build contains get put
    sort_history move_up start_time
rebuilt_order = refl

completed_early : Event
completed_early = event "short" 5 (build_completed none)

reachable-IsWellFormed_example :
    IsWellFormed (apply_event completed_early (new_build_history_projection (pos 3)))
reachable-IsWellFormed_example = reachable-IsWellFormed (applies completed_early (created (pos 3)))

rebuild-newest_first_example :
    let q = (rebuild 20 (some overlap) empty_history).0 in
    newest_first (start_time q.builds) q.history ≡ true
rebuild-newest_first_example = rebuild-newest_first 20 overlap empty_history

last_completed-apply_event_example :
    (s : BuildSummary) × (get_last_completed_build (apply_event completed_early empty_history)
      ≡ some s)
    × (get_build "short" (apply_event completed_early empty_history) ≡ some s)
    × (s.completed_at ≡ some 5)
unfolding completed_early is_skipped ends_build contains
last_completed-apply_event_example =
    last_completed-apply_event completed_early empty_history refl refl refl (omega arith)

rebuild-counts_example :
    let s = get_build "short" (rebuild 20 (some overlap) empty_history).0 in
    (repos_of s ≡ sum_for clones "short" overlap) × (files_of s ≡ sum_for finds "short" overlap)
rebuild-counts_example = rebuild-counts 20 overlap empty_history "short"
