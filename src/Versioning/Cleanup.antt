-- ===== src/Versioning/Cleanup.antt =====
-- CleanupOldVersions: which versions of a repository are kept.
use Prim.Native.String.{String}
use docbuilder.Common.{
  ℕ, ◌+◌, ◌-◌, ◌≤◌, ◌<◌, Bool, true, false, ◌≡◌, refl, ap, ◌∙◌, none, some, List, [], ◌++◌,
  if◌then◌else◌, arith, leb, ltb, length, Bool-cases, inl, inr,
}
use docbuilder.Common.Int.{pos}
use docbuilder.Common.Text.{get, put}
use docbuilder.Versioning.{
  Version, VersionConfig, RepositoryVersions, VersionManager, sort_versions, exceeded, retained,
  cleaned, cleanup_old_versions,
}
use docbuilder.Versioning.Sorting.{
  count, count-sort, non_defaults, has_default, newest_first, length-sort, has_default-sort,
  length-non_defaults_sort, sort-newest_first, non_defaults-newest_first,
}
use mathlib.Core.List.{append-nil}
use docbuilder.Versioning.Retention.{
  last_default, last_default-found, kept, removed, smaller, length-kept, has_default-non_defaults,
  has_default-kept, retained_lem, with_default_parts, replaced, split_count, split_order, parted,
}

-- The versions kept and those that are gone, of the versions before and up to n
pub record IsRetained (n : ℕ) (before after gone : List Version) : Type 0 where
  pub same : (p : Version → Bool) → count p (after ++ gone) ≡ count p before
  pub bounded : length after ≤ n
  pub size : length after ≡ (
      if leb (length before) n
      then length before
      else (if has_default before then 1 else 0) + smaller (length (non_defaults before)) (n - 1))
  pub default_kept : has_default after ≡ has_default before
  pub order : newest_first (non_defaults (after ++ gone)) ≡ true

module _ (n : ℕ) (before : List Version) where
  others : List Version
  others = non_defaults (sort_versions before)

  others-newest_first : newest_first others ≡ true
  unfolding others
  others-newest_first = non_defaults-newest_first _ (sort-newest_first before)

  -- Nothing is removed.
  whole-IsRetained : length before ≤ n → IsRetained n before (sort_versions before) []
  whole-IsRetained h = record {
    same = λ p. rw (append-nil (sort_versions before)) (count-sort p before);
    bounded = omega (arith, length-sort before);
    size = ground (arith, length-sort before);
    default_kept = has_default-sort before;
    order = rw (append-nil (sort_versions before)) (unfold others in others-newest_first);
  }

  -- The default versions that are replaced are gone, and the others over the limit.
  all_gone : List Version
  all_gone = replaced (sort_versions before) none ++ removed (n - 1) others

  cut-IsRetained :
      0 < n → n < length before → IsRetained n before (retained n (sort_versions before)) all_gone
  unfolding others all_gone parted
  cut-IsRetained pos_n h =
      let sorted = sort_versions before in
      let d = last_default sorted none in
      let front = kept (n - 1) others in
      let found_it = last_default-found sorted none refl in
      let none_in : has_default others ≡ false = has_default-non_defaults sorted in
      let parts = with_default_parts d front found_it.1 (has_default-kept (n - 1) others none_in) in
      let length_others : length others ≡ length (non_defaults before) =
        length-non_defaults_sort before in
      let size_kept : length front ≡ smaller (length others) (n - 1) = length-kept (n - 1) others in
      rw (retained_lem n sorted) (record {
        same = λ p. split_count (n - 1) sorted p ∙ count-sort p before;
        bounded = ground (arith, parts.2, size_kept);
        size =
            ground (arith, parts.2, size_kept, length_others, found_it.0, has_default-sort before);
        default_kept = parts.1 ∙ found_it.0 ∙ has_default-sort before;
        order =
            ap newest_first (split_order (n - 1) sorted) ∙ (unfold others in others-newest_first);
      })

  -- What is not over the limit is kept whole.
  cleaned-IsRetained :
      0 < n → (gone : List Version) × IsRetained n before (cleaned (pos n) before) gone
  unfolding cleaned
  cleaned-IsRetained pos_n = elim (Bool-cases (ltb n (length (sort_versions before)))) [
    | inl over ↦
        let cut : exceeded (pos n) (length (sort_versions before)) ≡ some n =
          unfold exceeded in ground arith in
        let more : n < length before = ground (arith, length-sort before) in
        rw (cleaned, cut) (all_gone, cut-IsRetained pos_n more)
    | inr within ↦
        let whole : exceeded (pos n) (length (sort_versions before)) ≡ none =
          unfold exceeded in ground arith in
        let less : length before ≤ n = ground (arith, length-sort before) in
        rw (cleaned, whole) ([], whole-IsRetained less)
  ]

-- With a positive limit n, CleanupOldVersions succeeds for a repository that is known, and changes
-- its list of versions only. The versions that it keeps and those that are gone are together the
-- versions before, each as often. It keeps at most n: all of them if they are no more than n; else a
-- default version, if there was one, and of the others as many as there are, up to n - 1, also where
-- there is no default version. A version marked as the default is kept exactly when there was one.
-- The others that are kept, followed by the others that are gone, stand newest first.
pub cleanup_old_versions-IsRetained :
    (url : String) (c : VersionConfig) (m : VersionManager) (rv : RepositoryVersions) (n : ℕ)
    → get m.repositories url ≡ some rv
    → c.max_versions ≡ pos n
    → 0 < n
    → (after gone : List Version) × (cleanup_old_versions url c m
        ≡ some
            (record m { repositories = put m.repositories url (record rv { versions = after }) }))
      × IsRetained n rv.versions after gone
unfolding cleanup_old_versions
cleanup_old_versions-IsRetained url c m rv n known limit pos_n =
    let parts = cleaned-IsRetained n rv.versions pos_n in
    (cleaned (pos n) rv.versions, parts.0, ground (arith, known, limit), parts.1)
