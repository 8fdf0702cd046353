-- ===== src/Versioning/Discovery.antt =====
-- DiscoverVersionsWithAuth: what it returns, and when it fails.
use Prim.Native.String.{String}
use text.Mathlib.TextEquality.{eq_iff}
use docbuilder.Common.{
  ℕ, zero, suc, ◌+◌, Bool, true, not, ◌&&◌, ◌≡◌, ◌⊎◌, ◌↔◌, refl, ◌∙◌, ap, none, some, List, [], ◌∷◌,
  ◌++◌, if◌then◌else◌, arith, leb, ltb, length, take, drop, All, length-take, Bool-cases,
  Option-cases, inl, inr,
}
use docbuilder.Common.Int.{ℤ, pos, negsuc}
use docbuilder.Versioning.{
  VersionConfig, is_branch, Version, GitReference, RemoteReference, Platform, VersionManager,
  VersionDiscoveryResult, git_references, has_branch, first_branch, first_candidate,
  get_default_branch, is_included, convert_reference, filter_references, sift_up, sort_versions,
  exceeded, limited, discovered, discover_versions,
}
use docbuilder.Versioning.Sorting.{
  all_up_to, newest_first, sort-newest_first, length-sort, take-drop,
}
use mathlib.Core.List.{append-nil}
use docbuilder.Versioning.Included.{
  IsFrom, Includes, included_lem, Includes-included, filter-IsFrom,
}

module _ {ℓ} (P : Version → Type ℓ) where
  sift_up-All : (v : Version) (xs : List Version) → P v → All P xs → All P (sift_up v xs)
  unfolding sift_up
  sift_up-All v [] h a = (h, tt)
  sift_up-All v (x ∷ xs) h a = elim (Bool-cases (ltb v.created_at x.created_at)) [
    | inl newer ↦ rw (sift_up, newer) (a.0, sift_up-All v xs h a.1)
    | inr older ↦ rw (sift_up, older) (h, a)
  ]

  sort-All : (xs : List Version) → All P xs → All P (sort_versions xs)
  unfolding sort_versions
  sort-All [] a = tt
  sort-All (x ∷ xs) a = sift_up-All x (sort_versions xs) a.0 (sort-All xs a.1)

  take-All : (n : ℕ) (xs : List Version) → All P xs → All P (take n xs)
  take-All zero xs a = tt
  take-All (suc n) [] a = tt
  take-All (suc n) (x ∷ xs) a = (a.0, take-All n xs a.1)

  limited-All : (max : ℤ) (xs : List Version) → All P xs → All P (limited max xs)
  unfolding limited
  limited-All max xs a = elim (Option-cases (exceeded max (length xs))) [
    | inl whole ↦ rw (limited, whole) a
    | inr (m, over) ↦ rw (limited, over) (take-All m xs a)
  ]

-- n, or a positive limit if that is smaller
abbrev pub up_to : ℤ → ℕ → ℕ
up_to (pos zero) n = n
up_to (pos (suc m)) n = if leb n (suc m) then n else suc m
up_to (negsuc m) n = n

length-limited : (max : ℤ) (xs : List Version) → length (limited max xs) ≡ up_to max (length xs)
unfolding limited exceeded
length-limited (pos zero) xs = refl
length-limited (pos (suc m)) xs = ground (arith, length-take (suc m) xs)
length-limited (negsuc m) xs = refl

-- How many references the strategy includes
unfoldable pub count_included : Platform → VersionConfig → String → List GitReference → ℕ
count_included p c default [] = 0
count_included p c default (r ∷ rs) =
    (if is_included p c default r then 1 else 0) + count_included p c default rs

length-filter :
    (p : Platform) (c : VersionConfig) (d : String) (rs : List GitReference)
    → length (filter_references p c d rs) ≡ count_included p c d rs
unfolding filter_references count_included convert_reference
length-filter p c d [] = refl
length-filter p c d (r ∷ rs) = ground (arith, length-filter p c d rs)

take-up_to : (n k : ℕ) (xs : List Version) → all_up_to n xs ≡ true → all_up_to n (take k xs) ≡ true
unfolding all_up_to
take-up_to n zero xs h = refl
take-up_to n (suc k) [] h = refl
take-up_to n (suc k) (x ∷ xs) h = ground (arith, take-up_to n k xs)

take-newest_first :
    (k : ℕ) (xs : List Version) → newest_first xs ≡ true → newest_first (take k xs) ≡ true
unfolding newest_first
take-newest_first zero xs h = refl
take-newest_first (suc k) [] h = refl
take-newest_first (suc k) (x ∷ xs) h =
    ground (arith, take-newest_first k xs, take-up_to x.created_at k xs)

limited-newest_first :
    (max : ℤ) (xs : List Version) → newest_first xs ≡ true → newest_first (limited max xs) ≡ true
unfolding limited
limited-newest_first max xs h = elim (Option-cases (exceeded max (length xs))) [
  | inl whole ↦ rw (limited, whole) h
  | inr (m, over) ↦ rw (limited, over) (take-newest_first m xs h)
]

-- The versions over the limit
over_limit : ℤ → List Version → List Version
over_limit max xs = elim (exceeded max (length xs)) [ none ↦ [] | some m ↦ drop m xs ]

limited-over_limit : (max : ℤ) (xs : List Version) → limited max xs ++ over_limit max xs ≡ xs
unfolding limited over_limit
limited-over_limit max xs = elim (Option-cases (exceeded max (length xs))) [
  | inl whole ↦ rw (limited, over_limit, whole) (append-nil xs)
  | inr (m, over) ↦ rw (limited, over_limit, over) (take-drop m xs)
]

drop-All {ℓ} : (P : Version → Type ℓ) (n : ℕ) (xs : List Version) → All P xs → All P (drop n xs)
drop-All P zero xs a = a
drop-All P (suc n) [] a = tt
drop-All P (suc n) (x ∷ xs) a = drop-All P n xs a.1

over_limit-All {ℓ} :
    (P : Version → Type ℓ) (max : ℤ) (xs : List Version) → All P xs → All P (over_limit max xs)
unfolding over_limit
over_limit-All P max xs a = elim (Option-cases (exceeded max (length xs))) [
  | inl whole ↦ rw (over_limit, whole) tt
  | inr (m, over) ↦ rw (over_limit, over) (drop-All P m xs a)
]

first_branch-listed :
    (rs : List GitReference) (d : String) → first_branch rs ≡ some d → has_branch d rs ≡ true
unfolding first_branch has_branch
first_branch-listed [] d h = cc
first_branch-listed (r ∷ rs) d h = elim (Bool-cases (is_branch r.type)) [
  | inl first ↦
      let name : r.name ≡ d = ground (arith, h, first) in
      ground (arith, first, name, eq_iff r.name d)
  | inr other ↦ ground (arith, h, other, first_branch-listed rs d)
]

first_candidate-listed :
    (cs : List String) (rs : List GitReference) (d : String)
    → first_candidate cs rs ≡ some d
    → has_branch d rs ≡ true
unfolding first_candidate
first_candidate-listed [] rs d h = first_branch-listed rs d h
first_candidate-listed (c ∷ cs) rs d h = elim (Bool-cases (has_branch c rs)) [
  | inl found ↦ let name : c ≡ d = ground (arith, h, found) in ground (arith, found, name)
  | inr other ↦ ground (arith, h, other, first_candidate-listed cs rs d)
]

-- What a discovery returns for the references of a repository
pub record IsDiscovered (p : Platform) (c : VersionConfig) (rs : List GitReference)
    (r : VersionDiscoveryResult) : Type 0 where
  pub default_listed : has_branch r.repository.default_branch rs ≡ true
  pub sourced : All (IsFrom p c r.repository.default_branch rs) r.repository.versions
  pub size :
      length r.repository.versions
      ≡ up_to c.max_versions (count_included p c r.repository.default_branch rs)
  pub order : newest_first r.repository.versions ≡ true
  pub asks :
      (x : GitReference)
      → (is_included p c r.repository.default_branch x ≡ true)
        ↔ Includes p c r.repository.default_branch x
  pub cut : List Version
  pub cut_sourced : All (IsFrom p c r.repository.default_branch rs) cut
  pub cut_size :
      length (r.repository.versions ++ cut) ≡ count_included p c r.repository.default_branch rs
  pub cut_order : newest_first (r.repository.versions ++ cut) ≡ true

unfoldable pub no_branch : List GitReference → Bool
no_branch [] = true
no_branch (r ∷ rs) = not (is_branch r.type) && no_branch rs

first_branch-none : (rs : List GitReference) → first_branch rs ≡ none → no_branch rs ≡ true
unfolding first_branch no_branch
first_branch-none [] h = refl
first_branch-none (r ∷ rs) h = ground (arith, h, first_branch-none rs)

first_candidate-none :
    (cs : List String) (rs : List GitReference) → first_candidate cs rs ≡ none → no_branch rs ≡ true
unfolding first_candidate
first_candidate-none [] rs h = first_branch-none rs h
first_candidate-none (c ∷ cs) rs h = ground (arith, h, first_candidate-none cs rs)

discovered-IsDiscovered :
    (p : Platform) (url : String) (c : VersionConfig) (m : VersionManager) (rs : List GitReference)
    (d : String)
    → has_branch d rs ≡ true
    → IsDiscovered p c rs (discovered p url c m rs d)
unfolding discovered
discovered-IsDiscovered p url c m rs d h =
    let filtered = filter_references p c d rs in
    let sorted = sort_versions filtered in
    let from_refs = sort-All (IsFrom p c d rs) filtered (filter-IsFrom p c d rs rs (λ r l. l)) in
    let all : limited c.max_versions sorted ++ over_limit c.max_versions sorted ≡ sorted =
      limited-over_limit c.max_versions sorted in
    let counted : length sorted ≡ count_included p c d rs =
      length-sort filtered ∙ length-filter p c d rs in
    record {
      default_listed = h;
      sourced = limited-All (IsFrom p c d rs) c.max_versions sorted from_refs;
      size = length-limited c.max_versions sorted ∙ ap (up_to c.max_versions) counted;
      order = limited-newest_first c.max_versions sorted (sort-newest_first filtered);
      asks = λ x. (included_lem p c d x c.strategy refl, Includes-included p c d x);
      cut = over_limit c.max_versions sorted;
      cut_sourced = over_limit-All (IsFrom p c d rs) c.max_versions sorted from_refs;
      cut_size = ap length all ∙ counted;
      cut_order = ap newest_first all ∙ sort-newest_first filtered;
    }

pub discover_versions-IsDiscovered :
    (p : Platform) (url : String) (c : VersionConfig) (listed : List RemoteReference)
    (m : VersionManager)
    → let refs = git_references p listed in
      let result = discover_versions p url c (some listed) m in
      ((result ≡ none) × (no_branch refs ≡ true))
      ⊎ ((r : VersionDiscoveryResult) × (result ≡ some r) × IsDiscovered p c refs r)
unfolding discover_versions get_default_branch
discover_versions-IsDiscovered p url c listed m =
    let refs = git_references p listed in
    let candidates : List String = "main" ∷ "master" ∷ "trunk" ∷ [] in
    elim (Option-cases (first_candidate candidates refs)) [
      | inl none_there ↦
          inl (ground (arith, none_there), first_candidate-none candidates refs none_there)
      | inr (d, is_d) ↦ inr (
        discovered p url c m refs d,
        ground (arith, is_d),
        discovered-IsDiscovered p url c m refs d (first_candidate-listed candidates refs d is_d),
      )
    ]
