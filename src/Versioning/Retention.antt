-- ===== src/Versioning/Retention.antt =====
-- CleanupOldVersions on sorted versions: the default version and the others that it keeps, and the
-- versions that are gone.
use docbuilder.Common.{
  ℕ, zero, suc, ◌+◌, ◌-◌, Bool, true, false, ◌||◌, ◌≡◌, refl, ap, ◌∙◌, Option, none, some, List, [],
  ◌∷◌, ◌++◌, if◌then◌else◌, arith, leb, ltb, length, take, drop, length-take, Bool-cases, inl, inr,
}
use docbuilder.Versioning.{Version, split_loop, rebuilt, retained}
use docbuilder.Versioning.Sorting.{count, non_defaults, has_default, take-drop}
use mathlib.Core.List.{append-nil, append_assoc}

-- The default version that the loop ends with
pub last_default : List Version → Option Version → Option Version
last_default [] d = d
last_default (v ∷ vs) d = last_default vs (if v.is_default then some v else d)

split_loop_lem :
    (vs : List Version) (d : Option Version) (os : List Version)
    → split_loop vs d os ≡ (last_default vs d, os ++ non_defaults vs)
unfolding split_loop last_default non_defaults
split_loop_lem [] d os = rw append-nil refl
split_loop_lem (v ∷ vs) d os = elim (Bool-cases v.is_default) [
  | inl yes_it ↦ simp yes_it (split_loop_lem vs (some v) os)
  | inr not_it ↦ simp not_it (rw (split_loop_lem vs d (os ++ (v ∷ []))) (simp append_assoc refl))
]

-- What the loop ends with is a default version, and there is one if the list or the start has one.
abbrev pub found : Option Version → Bool
found none = false
found (some v) = true

abbrev pub default_or_none : Option Version → Bool
default_or_none none = true
default_or_none (some v) = v.is_default

pub last_default-found :
    (vs : List Version) (d : Option Version)
    → default_or_none d ≡ true
    → (found (last_default vs d) ≡ found d || has_default vs)
      × (default_or_none (last_default vs d) ≡ true)
unfolding last_default has_default
last_default-found [] d h = (ground arith, h)
last_default-found (v ∷ vs) d h = elim (Bool-cases v.is_default) [
  | inl yes_it ↦
      let rest = last_default-found vs (some v) yes_it in
      (simp yes_it (rest.0 ∙ ground arith), simp yes_it rest.1)
  | inr not_it ↦ let rest = last_default-found vs d h in (simp not_it rest.0, simp not_it rest.1)
]

pub has_default-non_defaults : (xs : List Version) → has_default (non_defaults xs) ≡ false
unfolding has_default non_defaults
has_default-non_defaults [] = refl
has_default-non_defaults (x ∷ xs) = ground (arith, has_default-non_defaults xs)

has_default-take :
    (n : ℕ) (xs : List Version) → has_default xs ≡ false → has_default (take n xs) ≡ false
unfolding has_default
has_default-take zero xs h = refl
has_default-take (suc n) [] h = refl
has_default-take (suc n) (x ∷ xs) h = ground (arith, has_default-take n xs)

non_defaults-none : (xs : List Version) → has_default xs ≡ false → non_defaults xs ≡ xs
unfolding has_default non_defaults
non_defaults-none [] h = refl
non_defaults-none (x ∷ xs) h = ground (arith, non_defaults-none xs)

-- The others that are kept, and those that are not
pub kept : ℕ → List Version → List Version
kept n xs = if ltb n (length xs) then take n xs else xs

pub removed : ℕ → List Version → List Version
removed n xs = if ltb n (length xs) then drop n xs else []

abbrev pub smaller : ℕ → ℕ → ℕ
smaller m n = if leb m n then m else n

kept-removed : (n : ℕ) (xs : List Version) → kept n xs ++ removed n xs ≡ xs
unfolding kept removed
kept-removed n xs = elim (Bool-cases (ltb n (length xs))) [
  | inl cut ↦ rw cut (take-drop n xs)
  | inr whole ↦ rw whole (append-nil xs)
]

pub length-kept : (n : ℕ) (xs : List Version) → length (kept n xs) ≡ smaller (length xs) n
unfolding kept
length-kept n xs = ground (arith, length-take n xs)

pub has_default-kept :
    (n : ℕ) (xs : List Version) → has_default xs ≡ false → has_default (kept n xs) ≡ false
unfolding kept
has_default-kept n xs h = ground (arith, has_default-take n xs)

abbrev pub with_default : Option Version → List Version → List Version
with_default none xs = xs
with_default (some d) xs = d ∷ xs

rebuilt_lem :
    (n : ℕ) (d : Option Version) (os : List Version)
    → rebuilt n d os ≡ with_default d (kept (n - 1) os)
unfolding rebuilt kept
rebuilt_lem n none os = refl
rebuilt_lem n (some d) os = refl

pub retained_lem :
    (n : ℕ) (vs : List Version)
    → retained n vs ≡ with_default (last_default vs none) (kept (n - 1) (non_defaults vs))
unfolding retained
retained_lem n vs =
    rw (split_loop_lem vs none []) (rebuilt_lem n (last_default vs none) (non_defaults vs))

pub with_default_parts :
    (d : Option Version) (xs : List Version)
    → default_or_none d ≡ true
    → has_default xs ≡ false
    → (non_defaults (with_default d xs) ≡ xs)
      × (has_default (with_default d xs) ≡ found d)
      × (length (with_default d xs) ≡ (if found d then 1 else 0) + length xs)
unfolding non_defaults has_default
with_default_parts none xs h k = (non_defaults-none xs k, k, omega arith)
with_default_parts (some v) xs h k = (simp h (non_defaults-none xs k), simp h refl, omega arith)

count-append :
    (p : Version → Bool) (xs ys : List Version) → count p (xs ++ ys) ≡ count p xs + count p ys
unfolding count
count-append p [] ys = omega arith
count-append p (x ∷ xs) ys = omega (arith, count-append p xs ys)

-- The default versions that the loop passes over, for one that stands behind them
pub replaced : List Version → Option Version → List Version
replaced [] d = []
replaced (v ∷ vs) d =
    let rest = replaced vs d in if v.is_default then with_default d (replaced vs (some v)) else rest

count-split :
    (p : Version → Bool) (vs : List Version) (d : Option Version)
    → count p (with_default (last_default vs d) [])
        + count p (replaced vs d)
        + count p (non_defaults vs)
      ≡ count p (with_default d vs)
unfolding count last_default replaced non_defaults
count-split p [] none = refl
count-split p [] (some d) = omega arith
count-split p (v ∷ vs) none = elim (Bool-cases v.is_default) [
  | inl yes_it ↦ simp yes_it (count-split p vs (some v))
  | inr not_it ↦ simp not_it (omega (arith, count-split p vs none))
]
count-split p (v ∷ vs) (some d) = elim (Bool-cases v.is_default) [
  | inl yes_it ↦ simp yes_it (omega (arith, count-split p vs (some v)))
  | inr not_it ↦ simp not_it (omega (arith, count-split p vs (some d)))
]

replaced-non_defaults :
    (vs : List Version) (d : Option Version)
    → default_or_none d ≡ true
    → non_defaults (replaced vs d) ≡ []
unfolding replaced non_defaults
replaced-non_defaults [] d h = refl
replaced-non_defaults (v ∷ vs) none h = elim (Bool-cases v.is_default) [
  | inl yes_it ↦ simp yes_it (replaced-non_defaults vs (some v) yes_it)
  | inr not_it ↦ simp not_it (replaced-non_defaults vs none h)
]
replaced-non_defaults (v ∷ vs) (some d) h = elim (Bool-cases v.is_default) [
  | inl yes_it ↦ simp (yes_it, h) (replaced-non_defaults vs (some v) yes_it)
  | inr not_it ↦ simp not_it (replaced-non_defaults vs (some d) h)
]

non_defaults-append :
    (xs ys : List Version) → non_defaults (xs ++ ys) ≡ non_defaults xs ++ non_defaults ys
unfolding non_defaults
non_defaults-append [] ys = refl
non_defaults-append (x ∷ xs) ys = ground (arith, non_defaults-append xs ys)

has_default-drop :
    (n : ℕ) (xs : List Version) → has_default xs ≡ false → has_default (drop n xs) ≡ false
unfolding has_default
has_default-drop zero xs h = h
has_default-drop (suc n) [] h = refl
has_default-drop (suc n) (x ∷ xs) h = has_default-drop n xs (ground (arith, h))

has_default-removed :
    (n : ℕ) (xs : List Version) → has_default xs ≡ false → has_default (removed n xs) ≡ false
unfolding removed
has_default-removed n xs h = elim (Bool-cases (ltb n (length xs))) [
  | inl cut ↦ rw cut (has_default-drop n xs h)
  | inr whole ↦ rw whole (unfold has_default in refl)
]

count-with_default :
    (p : Version → Bool) (d : Option Version) (xs : List Version)
    → count p (with_default d xs) ≡ count p (with_default d []) + count p xs
unfolding count
count-with_default p none xs = omega arith
count-with_default p (some v) xs = omega arith

-- All that is kept and all that is gone
module _ (n : ℕ) (vs : List Version) where
  unfoldable pub parted : List Version
  parted =
      with_default (last_default vs none) (kept n (non_defaults vs))
      ++ (replaced vs none ++ removed n (non_defaults vs))

  pub split_count : (p : Version → Bool) → count p parted ≡ count p vs
  unfolding parted
  split_count p =
      let d = last_default vs none in
      let front = kept n (non_defaults vs) in
      let back = removed n (non_defaults vs) in
      omega (
        arith,
        count-append p (with_default d front) (replaced vs none ++ back),
        count-append p (replaced vs none) back,
        count-with_default p d front,
        count-append p front back,
        ap (count p) (kept-removed n (non_defaults vs)),
        count-split p vs none,
      )

  pub split_order : non_defaults parted ≡ non_defaults vs
  unfolding parted
  split_order =
      let d = last_default vs none in
      let front = kept n (non_defaults vs) in
      let back = removed n (non_defaults vs) in
      let none_in : has_default (non_defaults vs) ≡ false = has_default-non_defaults vs in
      let found_it = last_default-found vs none refl in
      let parts =
        with_default_parts d front found_it.1 (has_default-kept n (non_defaults vs) none_in) in
      let back_stays : non_defaults back ≡ back =
        non_defaults-none back (has_default-removed n (non_defaults vs) none_in) in
      rw
        (
          non_defaults-append (with_default d front) (replaced vs none ++ back),
          non_defaults-append (replaced vs none) back,
          replaced-non_defaults vs none refl,
          parts.0,
          back_stays,
        )
        (kept-removed n (non_defaults vs))
