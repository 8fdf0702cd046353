-- ===== src/Projection.antt =====
-- internal/eventstore/projection.go: the build history that the events of the store make up. A
-- summary is shared by the map and the history, which therefore holds build identifiers. The
-- decoded payload of an event is an option, `none` where json.Unmarshal fails; counts are natural
-- numbers. Time differences do not saturate.
pub mod Membership
pub mod Invariant
pub mod Sorting
pub mod Counting
mod Tests
use Prim.Native.String.{String}
use docbuilder.Common.{
  ℕ, suc, ◌+◌, ◌-◌, Bool, true, false, not, ◌&&◌, ◌||◌, Option, none, some, List, [], ◌∷◌,
  if◌then◌else◌, ltb, leb, length, take,
}
use docbuilder.Common.Int.{ℤ, pos, neg_ℕ, is_pos, pos_part}
use docbuilder.Common.Text.{StringMap, get, put, is_empty, str_eq}

-- The types of event that the projection knows, with their decoded payloads
pub data Payload : Type 0 where
  build_started : Option String → Payload
  repository_cloned : Payload
  documents_discovered : Option ℕ → Payload
  build_completed : Option (String × StringMap String) → Payload
  build_failed : Option (String × String) → Payload
  build_report_generated : Option String → Payload
  other_event : String → Payload

-- Event
pub record Event : Type 0 where
  pub build_id : String
  pub timestamp : ℕ
  pub payload : Payload

-- BuildSummary
pub record BuildSummary : Type 0 where
  pub build_id : String
  pub tenant_id : String
  pub status : String
  pub started_at : ℕ
  pub completed_at : Option ℕ
  pub duration : ℤ
  pub repo_count : ℕ
  pub file_count : ℕ
  pub error_stage : String
  pub error_message : String
  pub artifacts : StringMap String
  pub report_data : Option String

-- BuildHistoryProjection
pub record BuildHistoryProjection : Type 0 where
  pub builds : StringMap BuildSummary
  pub history : List String
  pub max_size : ℕ
  pub last_sync : ℕ

-- NewBuildHistoryProjection
pub new_build_history_projection : ℤ → BuildHistoryProjection
new_build_history_projection max_history_size = record {
  builds = [];
  history = [];
  max_size = if is_pos max_history_size then pos_part max_history_size else 100;
  last_sync = 0;
}

-- The summary made for a build that is not known.
new_summary : Event → BuildSummary
new_summary e = record {
  build_id = e.build_id;
  tenant_id = "";
  status = "running";
  started_at = e.timestamp;
  completed_at = none;
  duration = pos 0;
  repo_count = 0;
  file_count = 0;
  error_stage = "";
  error_message = "";
  artifacts = [];
  report_data = none;
}

-- summary, exists := p.builds[buildID]
summary_of : Event → Option BuildSummary → BuildSummary
unfolding new_summary
summary_of e none = new_summary e
summary_of e (some s) = s

-- now.Sub(start)
abbrev since : ℕ → ℕ → ℤ
since now start = if leb start now then pos (now - start) else neg_ℕ (start - now)

abbrev complete : ℕ → String → BuildSummary → BuildSummary
complete now status s = record s {
  completed_at = some now;
  duration = since now s.started_at;
  status = status;
}

-- The cases of the switch in `applyEventLocked`, on the summary
update_summary : ℕ → Payload → BuildSummary → BuildSummary
update_summary now (build_started none) s = record s { started_at = now; status = "running" }
update_summary now (build_started (some tenant)) s = record s {
  started_at = now;
  status = "running";
  tenant_id = tenant;
}
update_summary now repository_cloned s = record s { repo_count = suc s.repo_count }
update_summary now (documents_discovered none) s = s
update_summary now (documents_discovered (some n)) s = record s { file_count = s.file_count + n }
update_summary now (build_completed none) s = complete now "completed" s
update_summary now (build_completed (some (status, artifacts))) s =
    record (complete now (if is_empty status then "completed" else status) s) {
      artifacts = artifacts;
    }
update_summary now (build_failed none) s = complete now "failed" s
update_summary now (build_failed (some (stage, message))) s = record (complete now "failed" s) {
  error_stage = stage;
  error_message = message;
}
update_summary now (build_report_generated none) s = s
update_summary now (build_report_generated (some report)) s = record s { report_data = some report }
update_summary now (other_event _) s = s

-- Whether the case adds the build to the history
unfoldable pub ends_build : Payload → Bool
ends_build (build_completed _) = true
ends_build (build_failed _) = true
ends_build _ = false

-- The loop of `addToHistoryLocked`
unfoldable pub contains : String → List String → Bool
contains id [] = false
contains id (h ∷ rest) = str_eq h id || contains id rest

-- addToHistoryLocked
pub add_to_history_locked : ℕ → String → List String → List String
add_to_history_locked max_size id history =
    if contains id history then history else take max_size (id ∷ history)

-- An event with no build is skipped.
unfoldable pub is_skipped : Event → Bool
is_skipped e = is_empty e.build_id || str_eq e.build_id "unknown"

-- The rest of `applyEventLocked`
apply_to_build : Event → BuildHistoryProjection → BuildHistoryProjection
unfolding update_summary summary_of add_to_history_locked
apply_to_build e p =
    let s = update_summary e.timestamp e.payload (summary_of e (get p.builds e.build_id)) in
    let history' = add_to_history_locked p.max_size e.build_id p.history in
    record p {
      builds = put p.builds e.build_id s;
      history = if ends_build e.payload then history' else p.history;
    }

-- applyEventLocked
pub apply_event : Event → BuildHistoryProjection → BuildHistoryProjection
unfolding apply_to_build
apply_event e p = if is_skipped e then p else apply_to_build e p

pub apply_all : List Event → BuildHistoryProjection → BuildHistoryProjection
apply_all [] p = p
apply_all (e ∷ es) p = apply_all es (apply_event e p)

-- p.history[j].StartedAt of the build with the identifier
unfoldable pub start_time : StringMap BuildSummary → String → ℕ
start_time builds id = elim (get builds id) [ none ↦ 0 | some s ↦ s.started_at ]

-- The inner loop of `sortHistoryLocked`: x moves ahead of the last items of the sorted part, which
-- is given from its end, as long as it started after them.
pub move_up : (String → ℕ) → String → List String → List String
move_up start x [] = x ∷ []
move_up start x (y ∷ ys) =
    let later = move_up start x ys in if ltb (start y) (start x) then y ∷ later else x ∷ y ∷ ys

-- The outer loop of `sortHistoryLocked`, with the sorted part given from its end
sort_from : (String → ℕ) → List String → List String → List String
unfolding move_up
sort_from start done [] = done
sort_from start done (x ∷ rest) = sort_from start (move_up start x done) rest

reverse_onto : List String → List String → List String
reverse_onto [] acc = acc
reverse_onto (x ∷ xs) acc = reverse_onto xs (x ∷ acc)

-- sortHistoryLocked
pub sort_history : (String → ℕ) → List String → List String
unfolding sort_from reverse_onto
sort_history start history = reverse_onto (sort_from start [] history) []

-- Rebuild behind the query of the store
pub rebuild_from : ℕ → List Event → BuildHistoryProjection → BuildHistoryProjection
unfolding apply_all
rebuild_from now events p =
    let q = apply_all events (record p { builds = []; history = [] }) in
    record q {
      history = take q.max_size (sort_history (start_time q.builds) q.history);
      last_sync = now;
    }

-- Rebuild; `none` is a failed query, and then the result is false.
pub rebuild : ℕ → Option (List Event) → BuildHistoryProjection → BuildHistoryProjection × Bool
unfolding rebuild_from
rebuild now none p = (p, false)
rebuild now (some events) p = (rebuild_from now events p, true)

-- GetBuild
pub get_build : String → BuildHistoryProjection → Option BuildSummary
get_build id p = get p.builds id

-- GetLastCompletedBuild
pub get_last_completed_build : BuildHistoryProjection → Option BuildSummary
get_last_completed_build p = elim p.history [ [] ↦ none | id ∷ rest ↦ get p.builds id ]
