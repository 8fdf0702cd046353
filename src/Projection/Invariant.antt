-- ===== src/Projection/Invariant.antt =====
-- What holds of the projection after any events and rebuilds.
use Prim.Native.String.{String}
use text.Mathlib.TextEquality.{eq_iff}
use docbuilder.Common.{
  ℕ, ◌≤◌, ◌<◌, Bool, true, false, ◌||◌, ◌≡◌, refl, sym, subst, ◌∙◌, inl, inr, Bool-cases, Option,
  none, some, List, [], ◌∷◌, length, take, length-take, arith, if◌then◌else◌,
}
use docbuilder.Common.Int.{ℤ}
use docbuilder.Common.Text.{get, get-put, str_eq}
use docbuilder.Projection.Membership.{
  distinct, distinct-take, distinct-add, length-add, contains-add, contains-of_take,
  distinct-sort_history, contains-sort_history,
}
use docbuilder.Projection.{
  Payload, build_started, repository_cloned, documents_discovered, build_completed, build_failed,
  build_report_generated, other_event, Event, BuildSummary, BuildHistoryProjection,
  new_build_history_projection, summary_of, update_summary, ends_build, contains, is_skipped,
  apply_to_build, apply_event, apply_all, start_time, sort_history, rebuild_from, rebuild,
}

unfoldable pub is_completed : Option BuildSummary → Bool
is_completed none = false
is_completed (some s) = elim s.completed_at [ none ↦ false | some t ↦ true ]

-- No build is twice in the history, which is no longer than its bound, and every build in it is
-- known and completed.
pub record IsWellFormed (p : BuildHistoryProjection) : Type 0 where
  pub unique : distinct p.history ≡ true
  pub fits : length p.history ≤ p.max_size
  pub capacity : 0 < p.max_size
  pub ended : (id : String) → contains id p.history ≡ true → is_completed (get p.builds id) ≡ true

completed-update :
    (now : ℕ) (load : Payload) (s : BuildSummary)
    → (ends_build load || is_completed (some s)) ≡ true
    → is_completed (some (update_summary now load s)) ≡ true
unfolding is_completed update_summary ends_build
completed-update now (build_started none) s h = h
completed-update now (build_started (some _)) s h = h
completed-update now repository_cloned s h = h
completed-update now (documents_discovered none) s h = h
completed-update now (documents_discovered (some _)) s h = h
completed-update now (build_completed none) s h = refl
completed-update now (build_completed (some (_, _))) s h = refl
completed-update now (build_failed none) s h = refl
completed-update now (build_failed (some (_, _))) s h = refl
completed-update now (build_report_generated none) s h = h
completed-update now (build_report_generated (some _)) s h = h
completed-update now (other_event _) s h = h

completed-summary_of :
    (e : Event) (old : Option BuildSummary)
    → is_completed old ≡ true
    → is_completed (some (summary_of e old)) ≡ true
unfolding summary_of is_completed
completed-summary_of e none h = cc
completed-summary_of e (some s) h = h

module _ (e : Event) (p : BuildHistoryProjection) (inv : IsWellFormed p) where
  history_unique : distinct (apply_to_build e p).history ≡ true
  unfolding apply_to_build
  history_unique = ground (arith, inv.unique, distinct-add p.max_size e.build_id p.history)

  history_fits : length (apply_to_build e p).history ≤ p.max_size
  unfolding apply_to_build
  history_fits = ground (arith, inv.fits, length-add p.max_size e.build_id p.history)

  contains-history :
      (id : String)
      → contains id (apply_to_build e p).history ≡ true
      → str_eq e.build_id id ≡ false
      → contains id p.history ≡ true
  unfolding apply_to_build
  contains-history id h ne = ground (arith, contains-add p.max_size e.build_id id p.history)

  own-completed :
      contains e.build_id (apply_to_build e p).history ≡ true
      → (ends_build e.payload || is_completed (some (summary_of e (get p.builds e.build_id))))
        ≡ true
  unfolding apply_to_build
  own-completed h = elim (Bool-cases (ends_build e.payload)) [
    | inl ends ↦ simp ends
    | inr stays ↦
        ground
          (arith, completed-summary_of e (get p.builds e.build_id), inv.ended e.build_id, h, stays)
  ]

  history_completed :
      (id : String)
      → contains id (apply_to_build e p).history ≡ true
      → is_completed (get (apply_to_build e p).builds id) ≡ true
  history_completed id h =
      let s = update_summary e.timestamp e.payload (summary_of e (get p.builds e.build_id)) in
      let found : get (apply_to_build e p).builds id
          ≡ (if str_eq e.build_id id then some s else get p.builds id) =
        unfold apply_to_build in get-put p.builds e.build_id s id in
      elim (Bool-cases (str_eq e.build_id id)) [
        | inl same ↦
            let at = (eq_iff e.build_id id).0 same in
            let own = subst (λ z. contains z (apply_to_build e p).history ≡ true) (sym at) h in
            rw (found, same)
              (completed-update e.timestamp e.payload (summary_of e (get p.builds e.build_id))
                (own-completed own))
        | inr ne ↦ rw (found, ne) (inv.ended id (contains-history id h ne))
      ]

  apply_to_build-IsWellFormed : IsWellFormed (apply_to_build e p)
  apply_to_build-IsWellFormed = record {
    unique = history_unique;
    fits = unfold apply_to_build in history_fits;
    capacity = unfold apply_to_build in inv.capacity;
    ended = history_completed;
  }

  pub apply_event-IsWellFormed : IsWellFormed (apply_event e p)
  unfolding apply_event
  apply_event-IsWellFormed = elim (Bool-cases (is_skipped e)) [
    | inl skipped ↦ rw skipped inv
    | inr counts ↦ rw counts apply_to_build-IsWellFormed
  ]

apply_all-IsWellFormed :
    (es : List Event) (p : BuildHistoryProjection) → IsWellFormed p → IsWellFormed (apply_all es p)
unfolding apply_all
apply_all-IsWellFormed [] p inv = inv
apply_all-IsWellFormed (e ∷ es) p inv =
    apply_all-IsWellFormed es (apply_event e p) (apply_event-IsWellFormed e p inv)

sorted-IsWellFormed :
    (now : ℕ) (q : BuildHistoryProjection)
    → IsWellFormed q
    → IsWellFormed (record q {
      history = take q.max_size (sort_history (start_time q.builds) q.history);
      last_sync = now;
    })
sorted-IsWellFormed now q inv =
    let start = start_time q.builds in
    let sorted = sort_history start q.history in
    record {
      unique = distinct-take q.max_size sorted (distinct-sort_history start q.history inv.unique);
      fits = omega (arith, length-take q.max_size sorted);
      capacity = inv.capacity;
      ended = λ id h. inv.ended id (
          sym (contains-sort_history start id q.history) ∙ contains-of_take q.max_size id sorted h);
    }

rebuild_from-IsWellFormed :
    (now : ℕ) (es : List Event) (p : BuildHistoryProjection)
    → IsWellFormed p
    → IsWellFormed (rebuild_from now es p)
unfolding rebuild_from
rebuild_from-IsWellFormed now es p inv = sorted-IsWellFormed now _ (
    apply_all-IsWellFormed es (record p { builds = []; history = [] })
      (record {
        unique = unfold distinct in refl;
        fits = omega arith;
        capacity = inv.capacity;
        ended = λ id h. absurd (unfold contains in cc);
      }))

-- A projection after some events and rebuilds.
pub data Reaches : BuildHistoryProjection → Type 0 where
  created : (max_history_size : ℤ) → Reaches (new_build_history_projection max_history_size)
  applies : {p : BuildHistoryProjection} (e : Event) → Reaches p → Reaches (apply_event e p)
  rebuilds :
      {p : BuildHistoryProjection} (now : ℕ) (es : Option (List Event))
      → Reaches p
      → Reaches (rebuild now es p).0

created-IsWellFormed : (n : ℤ) → IsWellFormed (new_build_history_projection n)
unfolding new_build_history_projection distinct contains
created-IsWellFormed n = record {
  unique = refl;
  fits = omega arith;
  capacity = ground arith;
  ended = λ id h. absurd (cc);
}

-- After any events and any rebuilds of a new projection: no build is twice in the history, the
-- history is no longer than its bound, which is positive, and each build in it is known and completed.
pub reachable-IsWellFormed : {p : BuildHistoryProjection} → Reaches p → IsWellFormed p
unfolding rebuild
reachable-IsWellFormed (created n) = created-IsWellFormed n
reachable-IsWellFormed (applies {p} e r) = apply_event-IsWellFormed e p (reachable-IsWellFormed r)
reachable-IsWellFormed (rebuilds now none r) = reachable-IsWellFormed r
reachable-IsWellFormed (rebuilds {p} now (some es) r) =
    rebuild_from-IsWellFormed now es p (reachable-IsWellFormed r)
