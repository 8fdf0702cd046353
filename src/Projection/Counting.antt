-- ===== src/Projection/Counting.antt =====
-- What the summaries of builds count, against the events themselves.
use Prim.Native.String.{String}
use text.Mathlib.TextEquality.{eq_iff}
use docbuilder.Common.{
  ℕ, ◌+◌, not, ◌&&◌, ◌≡◌, Option, none, some, List, [], ◌∷◌, arith, if◌then◌else◌, inl, inr,
  Bool-cases, ap, ◌∙◌,
}
use native.Mathlib.Nat.{zero-add}
use docbuilder.Common.Text.{get, get-put, str_eq}
use docbuilder.Projection.{
  Payload, repository_cloned, documents_discovered, Event, BuildSummary, BuildHistoryProjection,
  new_summary, summary_of, update_summary, is_skipped, apply_to_build, apply_event, apply_all,
  rebuild_from, rebuild, get_build,
}

-- What one event adds to the repositories and to the files.
abbrev pub clones : Payload → ℕ
clones repository_cloned = 1
clones _ = 0

abbrev pub finds : Payload → ℕ
finds (documents_discovered (some n)) = n
finds _ = 0

-- The sum of a number over the events of a build; an event without a build counts nothing.
unfoldable pub sum_for : (Payload → ℕ) → String → List Event → ℕ
sum_for f id [] = 0
sum_for f id (e ∷ es) =
    (if not (is_skipped e) && str_eq e.build_id id then f e.payload else 0) + sum_for f id es

-- The counts of a summary, 0 for a build that is not known
abbrev pub repos_of : Option BuildSummary → ℕ
repos_of none = 0
repos_of (some s) = s.repo_count

abbrev pub files_of : Option BuildSummary → ℕ
files_of none = 0
files_of (some s) = s.file_count

counts-update :
    (e : Event) (old : Option BuildSummary)
    → let s = update_summary e.timestamp e.payload (summary_of e old) in
      (s.repo_count ≡ repos_of old + clones e.payload)
      × (s.file_count ≡ files_of old + finds e.payload)
unfolding update_summary summary_of new_summary
counts-update e old = ground arith

counts-apply_event :
    (e : Event) (p : BuildHistoryProjection) (id : String) (rest : List Event)
    → let old = get p.builds id in
      let new = get (apply_event e p).builds id in
      (repos_of new + sum_for clones id rest ≡ repos_of old + sum_for clones id (e ∷ rest))
      × (files_of new + sum_for finds id rest ≡ files_of old + sum_for finds id (e ∷ rest))
unfolding apply_event apply_to_build sum_for
counts-apply_event e p id rest = elim (Bool-cases (is_skipped e)) [
  | inl skipped ↦ simp skipped (omega arith, omega arith)
  | inr counts ↦ elim (Bool-cases (str_eq e.build_id id)) [
    | inl same ↦
        let c = counts-update e (get p.builds e.build_id) in
        let at = ap (get p.builds) ((eq_iff e.build_id id).0 same) in
        simp (counts, same, get-put)
          (omega (arith, c.0, ap repos_of at), omega (arith, c.1, ap files_of at))
    | inr other ↦ simp (counts, other, get-put) (omega arith, omega arith)
  ]
]

counts-apply_all :
    (es : List Event) (p : BuildHistoryProjection) (id : String)
    → let old = get p.builds id in
      let new = get (apply_all es p).builds id in
      (repos_of new ≡ repos_of old + sum_for clones id es)
      × (files_of new ≡ files_of old + sum_for finds id es)
unfolding apply_all sum_for
counts-apply_all [] p id = (omega arith, omega arith)
counts-apply_all (e ∷ es) p id =
    let now = counts-apply_event e p id es in
    let later = counts-apply_all es (apply_event e p) id in
    (omega (arith, now.0, later.0), omega (arith, now.1, later.1))

-- After a rebuild, what `GetBuild` says of any build are the number of repositories cloned for it
-- and the sum of the files discovered for it in the events given, 0 if it does not know the build.
pub rebuild-counts :
    (now : ℕ) (es : List Event) (p : BuildHistoryProjection) (id : String)
    → let s = get_build id (rebuild now (some es) p).0 in
      (repos_of s ≡ sum_for clones id es) × (files_of s ≡ sum_for finds id es)
unfolding rebuild rebuild_from get_build
rebuild-counts now es p id =
    let c = counts-apply_all es (record p { builds = []; history = [] }) id in
    unfold get in (c.0 ∙ zero-add _, c.1 ∙ zero-add _)
