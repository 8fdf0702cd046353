-- ===== src/Versioning/Sorting.antt =====
-- Sorting and cutting lists of versions: what stays and in what order.
use docbuilder.Common.{
  ℕ, zero, suc, ◌+◌, ◌≤◌, Bool, true, false, not, ◌&&◌, ◌||◌, ◌≡◌, refl, ap, List, [], ◌∷◌, ◌++◌,
  if◌then◌else◌, arith, leb, length, take, drop,
}
use docbuilder.Versioning.{Version, sift_up, sort_versions}

-- How many versions meet a test
unfoldable pub count : (Version → Bool) → List Version → ℕ
count p [] = 0
count p (v ∷ vs) = (if p v then 1 else 0) + count p vs

unfoldable pub non_defaults : List Version → List Version
non_defaults [] = []
non_defaults (v ∷ vs) = let rest = non_defaults vs in if v.is_default then rest else v ∷ rest

unfoldable pub has_default : List Version → Bool
has_default [] = false
has_default (v ∷ vs) = v.is_default || has_default vs

-- No version is newer than n; each version is no older than those behind it.
unfoldable pub all_up_to : ℕ → List Version → Bool
all_up_to n [] = true
all_up_to n (v ∷ vs) = leb v.created_at n && all_up_to n vs

unfoldable pub newest_first : List Version → Bool
unfolding all_up_to
newest_first [] = true
newest_first (v ∷ vs) = all_up_to v.created_at vs && newest_first vs

count-sift_up :
    (p : Version → Bool) (v : Version) (xs : List Version)
    → count p (sift_up v xs) ≡ count p (v ∷ xs)
unfolding count sift_up
count-sift_up p v [] = refl
count-sift_up p v (x ∷ xs) = ground (arith, count-sift_up p v xs)

pub count-sort : (p : Version → Bool) (xs : List Version) → count p (sort_versions xs) ≡ count p xs
unfolding count sort_versions
count-sort p [] = refl
count-sort p (x ∷ xs) = ground (arith, count-sift_up p x (sort_versions xs), count-sort p xs)

length-sift_up : (v : Version) (xs : List Version) → length (sift_up v xs) ≡ suc (length xs)
unfolding sift_up
length-sift_up v [] = refl
length-sift_up v (x ∷ xs) = ground (arith, length-sift_up v xs)

pub length-sort : (xs : List Version) → length (sort_versions xs) ≡ length xs
unfolding sort_versions
length-sort [] = refl
length-sort (x ∷ xs) = ground (arith, length-sift_up x (sort_versions xs), length-sort xs)

has_default-sift_up :
    (v : Version) (xs : List Version) → has_default (sift_up v xs) ≡ v.is_default || has_default xs
unfolding has_default sift_up
has_default-sift_up v [] = refl
has_default-sift_up v (x ∷ xs) = ground (arith, has_default-sift_up v xs)

pub has_default-sort : (xs : List Version) → has_default (sort_versions xs) ≡ has_default xs
unfolding has_default sort_versions
has_default-sort [] = refl
has_default-sort (x ∷ xs) =
    ground (arith, has_default-sift_up x (sort_versions xs), has_default-sort xs)

count-non_defaults :
    (p : Version → Bool) (xs : List Version)
    → count p (non_defaults xs) ≡ count (λ v. not v.is_default && p v) xs
unfolding count non_defaults
count-non_defaults p [] = refl
count-non_defaults p (x ∷ xs) = ground (arith, count-non_defaults p xs)

pub count-non_defaults_sort :
    (p : Version → Bool) (xs : List Version)
    → count p (non_defaults (sort_versions xs)) ≡ count p (non_defaults xs)
count-non_defaults_sort p xs =
    rw (count-non_defaults p (sort_versions xs), count-non_defaults p xs)
      (count-sort (λ v. not v.is_default && p v) xs)

length-count : (xs : List Version) → length xs ≡ count (λ v. true) xs
unfolding count
length-count [] = refl
length-count (x ∷ xs) = omega (arith, length-count xs)

pub length-non_defaults_sort :
    (xs : List Version) → length (non_defaults (sort_versions xs)) ≡ length (non_defaults xs)
length-non_defaults_sort xs =
    rw (length-count (non_defaults (sort_versions xs)), length-count (non_defaults xs))
      (count-non_defaults_sort (λ v. true) xs)

all_up_to-le : (m n : ℕ) (xs : List Version) → m ≤ n → all_up_to m xs ≡ true → all_up_to n xs ≡ true
unfolding all_up_to
all_up_to-le m n [] h a = refl
all_up_to-le m n (x ∷ xs) h a = ground (arith, all_up_to-le m n xs h)

all_up_to-sift_up :
    (n : ℕ) (v : Version) (xs : List Version)
    → all_up_to n (sift_up v xs) ≡ leb v.created_at n && all_up_to n xs
unfolding all_up_to sift_up
all_up_to-sift_up n v [] = refl
all_up_to-sift_up n v (x ∷ xs) = ground (arith, all_up_to-sift_up n v xs)

newest_first-sift_up :
    (v : Version) (xs : List Version) → newest_first xs ≡ true → newest_first (sift_up v xs) ≡ true
unfolding newest_first sift_up
newest_first-sift_up v [] h = refl
newest_first-sift_up v (x ∷ xs) h = ground (
  arith,
  newest_first-sift_up v xs,
  all_up_to-sift_up x.created_at v xs,
  all_up_to-le x.created_at v.created_at xs,
)

pub sort-newest_first : (xs : List Version) → newest_first (sort_versions xs) ≡ true
unfolding newest_first sort_versions
sort-newest_first [] = refl
sort-newest_first (x ∷ xs) = newest_first-sift_up x (sort_versions xs) (sort-newest_first xs)

all_up_to-non_defaults :
    (n : ℕ) (xs : List Version) → all_up_to n xs ≡ true → all_up_to n (non_defaults xs) ≡ true
unfolding all_up_to non_defaults
all_up_to-non_defaults n [] h = refl
all_up_to-non_defaults n (x ∷ xs) h = ground (arith, all_up_to-non_defaults n xs)

pub non_defaults-newest_first :
    (xs : List Version) → newest_first xs ≡ true → newest_first (non_defaults xs) ≡ true
unfolding newest_first non_defaults
non_defaults-newest_first [] h = refl
non_defaults-newest_first (x ∷ xs) h =
    ground (arith, non_defaults-newest_first xs, all_up_to-non_defaults x.created_at xs)

pub take-drop : (n : ℕ) (xs : List Version) → take n xs ++ drop n xs ≡ xs
take-drop zero xs = refl
take-drop (suc n) [] = refl
take-drop (suc n) (x ∷ xs) = ap (λ t. x ∷ t) (take-drop n xs)

pub length-non_defaults : (xs : List Version) → length (non_defaults xs) ≤ length xs
unfolding non_defaults
length-non_defaults [] = omega arith
length-non_defaults (x ∷ xs) = ground (arith, length-non_defaults xs)
