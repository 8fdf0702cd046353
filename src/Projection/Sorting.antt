-- ===== src/Projection/Sorting.antt =====
-- The order of the history, after a rebuild and while events arrive.
use Prim.Native.String.{String}
use docbuilder.Common.{
  ℕ, zero, suc, ◌-◌, ◌≤◌, ◌<◌, Bool, true, false, ◌&&◌, ◌≡◌, refl, none, some, List, [], ◌∷◌, take,
  arith, leb, ◌∙◌,
}
use docbuilder.Common.Text.{get, get-put}
use text.Mathlib.TextEquality.{eq_iff}
use docbuilder.Projection.{
  summary_of, update_summary, build_started, repository_cloned, documents_discovered,
  build_report_generated, other_event, Payload, build_completed, build_failed, Event, BuildSummary,
  BuildHistoryProjection, contains, ends_build, is_skipped, apply_to_build, apply_event, apply_all,
  start_time, move_up, sort_from, reverse_onto, sort_history, rebuild_from, rebuild, get_build,
  get_last_completed_build,
}

module _ (start : String → ℕ) where
  all_from : ℕ → List String → Bool
  all_from n [] = true
  all_from n (y ∷ ys) = leb n (start y) && all_from n ys

  ascending : List String → Bool
  unfolding all_from
  ascending [] = true
  ascending (x ∷ xs) = all_from (start x) xs && ascending xs

  unfoldable pub all_up_to : ℕ → List String → Bool
  all_up_to n [] = true
  all_up_to n (y ∷ ys) = leb (start y) n && all_up_to n ys

  -- No build started before one that stands behind it.
  unfoldable pub newest_first : List String → Bool
  newest_first [] = true
  newest_first (x ∷ xs) = all_up_to (start x) xs && newest_first xs

  all_above : List String → List String → Bool
  all_above [] ys = true
  all_above (x ∷ xs) ys = all_up_to (start x) ys && all_above xs ys

  all_from-le : (m n : ℕ) (ys : List String) → m ≤ n → all_from n ys ≡ true → all_from m ys ≡ true
  unfolding all_from
  all_from-le m n [] h a = refl
  all_from-le m n (y ∷ ys) h a = ground (arith, all_from-le m n ys h)

  all_from-move_up :
      (n : ℕ) (x : String) (ys : List String)
      → all_from n (move_up start x ys) ≡ (leb n (start x) && all_from n ys)
  unfolding all_from move_up
  all_from-move_up n x [] = refl
  all_from-move_up n x (y ∷ ys) = ground (arith, all_from-move_up n x ys)

  ascending-move_up :
      (x : String) (ys : List String) → ascending ys ≡ true → ascending (move_up start x ys) ≡ true
  unfolding ascending move_up all_from
  ascending-move_up x [] a = refl
  ascending-move_up x (y ∷ ys) a = ground (
    arith,
    ascending-move_up x ys,
    all_from-move_up (start y) x ys,
    all_from-le (start x) (start y) ys,
  )

  ascending-sort_from :
      (done rest : List String)
      → ascending done ≡ true
      → ascending (sort_from start done rest) ≡ true
  unfolding sort_from
  ascending-sort_from done [] a = a
  ascending-sort_from done (x ∷ rest) a =
      ascending-sort_from (move_up start x done) rest (ascending-move_up x done a)

  all_above-cons :
      (xs : List String) (x : String) (ys : List String)
      → all_above xs (x ∷ ys) ≡ (all_from (start x) xs && all_above xs ys)
  unfolding all_above all_from all_up_to
  all_above-cons [] x ys = refl
  all_above-cons (z ∷ xs) x ys = ground (arith, all_above-cons xs x ys)

  all_above-nil : (xs : List String) → all_above xs [] ≡ true
  unfolding all_above all_up_to
  all_above-nil [] = refl
  all_above-nil (x ∷ xs) = all_above-nil xs

  newest_first-reverse_onto :
      (xs ys : List String)
      → ascending xs ≡ true
      → newest_first ys ≡ true
      → all_above xs ys ≡ true
      → newest_first (reverse_onto xs ys) ≡ true
  unfolding reverse_onto
  newest_first-reverse_onto [] ys a d c = d
  newest_first-reverse_onto (x ∷ xs) ys a d c =
      newest_first-reverse_onto xs (x ∷ ys) (unfold ascending in ground arith)
        (unfold newest_first all_above in ground arith)
        (unfold ascending all_above in ground (arith, all_above-cons xs x ys))

  newest_first-sort_history : (xs : List String) → newest_first (sort_history start xs) ≡ true
  unfolding sort_history newest_first ascending
  newest_first-sort_history xs =
      newest_first-reverse_onto (sort_from start [] xs) [] (ascending-sort_from [] xs refl) refl
        (all_above-nil (sort_from start [] xs))

  all_up_to-take :
      (k n : ℕ) (xs : List String) → all_up_to n xs ≡ true → all_up_to n (take k xs) ≡ true
  unfolding all_up_to
  all_up_to-take zero n xs a = refl
  all_up_to-take (suc k) n [] a = refl
  all_up_to-take (suc k) n (x ∷ xs) a = ground (arith, all_up_to-take k n xs)

  newest_first-take :
      (k : ℕ) (xs : List String) → newest_first xs ≡ true → newest_first (take k xs) ≡ true
  unfolding newest_first
  newest_first-take zero xs a = refl
  newest_first-take (suc k) [] a = refl
  newest_first-take (suc k) (x ∷ xs) a =
      ground (arith, newest_first-take k xs, all_up_to-take k (start x) xs)

-- After a rebuild from any events, no build of the history started before one that stands behind it.
pub rebuild-newest_first :
    (now : ℕ) (es : List Event) (p : BuildHistoryProjection)
    → let q = (rebuild now (some es) p).0 in newest_first (start_time q.builds) q.history ≡ true
unfolding rebuild rebuild_from
rebuild-newest_first now es p =
    let q = apply_all es (record p { builds = []; history = [] }) in
    let start = start_time q.builds in
    newest_first-take start q.max_size (sort_history start q.history)
      (newest_first-sort_history start q.history)

completed_at-update :
    (now : ℕ) (load : Payload) (s : BuildSummary)
    → ends_build load ≡ true
    → (update_summary now load s).completed_at ≡ some now
unfolding update_summary ends_build
completed_at-update now (build_completed none) s h = refl
completed_at-update now (build_completed (some (_, _))) s h = refl
completed_at-update now (build_failed none) s h = refl
completed_at-update now (build_failed (some (_, _))) s h = refl
completed_at-update now (build_started _) s h = cc
completed_at-update now repository_cloned s h = cc
completed_at-update now (documents_discovered _) s h = cc
completed_at-update now (build_report_generated _) s h = cc
completed_at-update now (other_event _) s h = cc

suc-sub_one : (n : ℕ) → suc n - 1 ≡ n
suc-sub_one n = omega arith

take-cons : (n : ℕ) (x : String) (xs : List String) → 0 < n → take n (x ∷ xs) ≡ x ∷ take (n - 1) xs
take-cons zero x xs h = absurd (omega (arith, h))
take-cons (suc n) x xs h = rw (suc-sub_one n)

last-head :
    (q : BuildHistoryProjection) (id : String) (rest : List String)
    → q.history ≡ id ∷ rest
    → get_last_completed_build q ≡ get q.builds id
unfolding get_last_completed_build
last-head q id rest h = rw h

history-apply_event :
    (e : Event) (p : BuildHistoryProjection)
    → is_skipped e ≡ false
    → ends_build e.payload ≡ true
    → contains e.build_id p.history ≡ false
    → 0 < p.max_size
    → (apply_event e p).history ≡ e.build_id ∷ take (p.max_size - 1) p.history
unfolding apply_event apply_to_build
history-apply_event e p counts ends new room =
    rw (counts, ends, new) (take-cons p.max_size e.build_id p.history room)

builds-apply_event :
    (e : Event) (p : BuildHistoryProjection)
    → is_skipped e ≡ false
    → get (apply_event e p).builds e.build_id
      ≡ some (update_summary e.timestamp e.payload (summary_of e (get p.builds e.build_id)))
unfolding apply_event apply_to_build
builds-apply_event e p counts =
    let s = update_summary e.timestamp e.payload (summary_of e (get p.builds e.build_id)) in
    let same = (eq_iff e.build_id e.build_id).1 refl in
    rw counts (get-put p.builds e.build_id s e.build_id ∙ rw same)

-- An event that ends a build which is not in the history makes it the last completed one, whatever
-- builds started later; it then is completed at the time of the event.
pub last_completed-apply_event :
    (e : Event) (p : BuildHistoryProjection)
    → is_skipped e ≡ false
    → ends_build e.payload ≡ true
    → contains e.build_id p.history ≡ false
    → 0 < p.max_size
    → (s : BuildSummary) × (get_last_completed_build (apply_event e p) ≡ some s)
      × (get_build e.build_id (apply_event e p) ≡ some s)
      × (s.completed_at ≡ some e.timestamp)
unfolding get_build
last_completed-apply_event e p counts ends new room =
    let found = builds-apply_event e p counts in
    (
      update_summary e.timestamp e.payload (summary_of e (get p.builds e.build_id)),
      last-head (apply_event e p) e.build_id _ (history-apply_event e p counts ends new room)
          ∙ found,
      found,
      completed_at-update e.timestamp e.payload (summary_of e (get p.builds e.build_id)) ends,
    )
