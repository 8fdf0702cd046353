-- ===== src/Errors/Tree.antt =====
-- What errors.Is and errors.As find in an error, against the tree of the errors that it wraps.
use docbuilder.Common.{
  Bool, true, false, ◌||◌, ◌≡◌, inl, inr, Option, none, some, refl, ◌∙◌, ap, sym, List, [], ◌∷◌,
  ◌++◌, All, or_else, arith, Bool-cases, Option-cases,
}
use docbuilder.Errors.{
  RetryStrategy, Sentinel, GoError, plain, sentinel, wrapped, wrapped_all, classified,
  classified_leaf, stage_failure, Causes, no_cause, and_cause, same_sentinel, is_sentinel,
  is_sentinel_any, as_classified, as_classified_any,
}

-- An error and all that it wraps, each before what it wraps, and the causes in their order.
unfoldable mutual
  pub tree : GoError → List GoError
  tree (plain m) = plain m ∷ []
  tree (sentinel s) = sentinel s ∷ []
  tree (wrapped m e) = wrapped m e ∷ tree e
  tree (wrapped_all m es) = wrapped_all m es ∷ trees es
  tree (classified r m e) = classified r m e ∷ tree e
  tree (classified_leaf r m) = classified_leaf r m ∷ []
  tree (stage_failure k n e) = stage_failure k n e ∷ tree e

  pub trees : Causes → List GoError
  trees no_cause = []
  trees (and_cause e es) = tree e ++ trees es

-- The strategy of a ClassifiedError
abbrev pub strategy : GoError → Option RetryStrategy
strategy (classified r m e) = some r
strategy (classified_leaf r m) = some r
strategy _ = none

-- The sentinel stands in the tree.
pub record Holds (t : Sentinel) (e : GoError) : Type 0 where
  pub before : List GoError
  pub after : List GoError
  pub splits : tree e ≡ before ++ (sentinel t ∷ after)

-- The first ClassifiedError of the tree has the strategy.
pub record FirstStrategy (r : RetryStrategy) (e : GoError) : Type 0 where
  pub before : List GoError
  pub error : GoError
  pub after : List GoError
  pub splits : tree e ≡ before ++ (error ∷ after)
  pub is_first : All (λ x. strategy x ≡ none) before
  pub has_strategy : strategy error ≡ some r

-- The two searches, on a list
is_here : Sentinel → GoError → Bool
is_here t (sentinel s) = same_sentinel s t
is_here t _ = false

any_here : Sentinel → List GoError → Bool
any_here t [] = false
any_here t (x ∷ xs) = is_here t x || any_here t xs

first_strategy : List GoError → Option RetryStrategy
first_strategy [] = none
first_strategy (x ∷ xs) = or_else (strategy x) (first_strategy xs)

any_here-append :
    (t : Sentinel) (xs ys : List GoError) → any_here t (xs ++ ys) ≡ any_here t xs || any_here t ys
unfolding any_here
any_here-append t [] ys = refl
any_here-append t (x ∷ xs) ys = ground (arith, any_here-append t xs ys)

first_strategy-append :
    (xs ys : List GoError)
    → first_strategy (xs ++ ys) ≡ or_else (first_strategy xs) (first_strategy ys)
unfolding first_strategy
first_strategy-append [] ys = refl
first_strategy-append (x ∷ xs) ys = ground (arith, first_strategy-append xs ys)

mutual
  unfolding is_sentinel tree any_here is_here

  is_sentinel-tree : (t : Sentinel) (e : GoError) → is_sentinel t e ≡ any_here t (tree e)
  is_sentinel-tree t (plain m) = refl
  is_sentinel-tree t (sentinel s) = ground arith
  is_sentinel-tree t (wrapped m e) = is_sentinel-tree t e
  is_sentinel-tree t (wrapped_all m es) = is_sentinel-trees t es
  is_sentinel-tree t (classified r m e) = is_sentinel-tree t e
  is_sentinel-tree t (classified_leaf r m) = refl
  is_sentinel-tree t (stage_failure k n e) = is_sentinel-tree t e

  is_sentinel-trees : (t : Sentinel) (es : Causes) → is_sentinel_any t es ≡ any_here t (trees es)
  is_sentinel-trees t no_cause = refl
  is_sentinel-trees t (and_cause e es) =
      ground
        (arith, is_sentinel-tree t e, is_sentinel-trees t es, any_here-append t (tree e) (trees es))

mutual
  unfolding as_classified tree first_strategy

  classified-tree : (e : GoError) → as_classified e ≡ first_strategy (tree e)
  classified-tree (plain m) = refl
  classified-tree (sentinel s) = refl
  classified-tree (wrapped m e) = classified-tree e
  classified-tree (wrapped_all m es) = classified-trees es
  classified-tree (classified r m e) = refl
  classified-tree (classified_leaf r m) = refl
  classified-tree (stage_failure k n e) = classified-tree e

  classified-trees : (es : Causes) → as_classified_any es ≡ first_strategy (trees es)
  classified-trees no_cause = refl
  classified-trees (and_cause e es) =
      ap (λ o. or_else o (as_classified_any es)) (classified-tree e)
      ∙ ap (or_else (first_strategy (tree e))) (classified-trees es)
      ∙ sym (first_strategy-append (tree e) (trees es))

is_here-sentinel : (t : Sentinel) (x : GoError) → is_here t x ≡ true → x ≡ sentinel t
unfolding is_here
is_here-sentinel t (sentinel s) h = ground arith
is_here-sentinel t _ h = cc

-- Where the search on a list succeeds
any_here-split :
    (t : Sentinel) (xs : List GoError)
    → any_here t xs ≡ true
    → (before after : List GoError) × (xs ≡ before ++ (sentinel t ∷ after))
unfolding any_here
any_here-split t [] h = cc
any_here-split t (x ∷ xs) h = elim (Bool-cases (is_here t x)) [
  | inl found ↦ ([], xs, ap (λ y. y ∷ xs) (is_here-sentinel t x found))
  | inr other ↦
      let (before, after, e) = any_here-split t xs (ground (arith, h, other)) in
      (x ∷ before, after, ap (λ ys. x ∷ ys) e)
]

any_here-in :
    (t : Sentinel) (before after : List GoError)
    → any_here t (before ++ (sentinel t ∷ after)) ≡ true
unfolding any_here is_here
any_here-in t [] after = ground arith
any_here-in t (x ∷ before) after = ground (arith, any_here-in t before after)

pub is_sentinel-Holds : (t : Sentinel) (e : GoError) → is_sentinel t e ≡ true → Holds t e
is_sentinel-Holds t e h =
    let (before, after, s) = any_here-split t (tree e) (sym (is_sentinel-tree t e) ∙ h) in
    record { before = before; after = after; splits = s }

pub Holds-is_sentinel : (t : Sentinel) (e : GoError) → Holds t e → is_sentinel t e ≡ true
Holds-is_sentinel t e h =
    is_sentinel-tree t e ∙ ap (any_here t) h.splits ∙ any_here-in t h.before h.after

first_strategy-split :
    (r : RetryStrategy) (xs : List GoError)
    → first_strategy xs ≡ some r
    → (before : List GoError) × (error : GoError) × (after : List GoError) × (xs
        ≡ before ++ (error ∷ after))
      × All (λ x. strategy x ≡ none) before
      × (strategy error ≡ some r)
unfolding first_strategy
first_strategy-split r [] h = cc
first_strategy-split r (x ∷ xs) h = elim (Option-cases (strategy x)) [
  | inl nothing ↦
      let later : first_strategy xs ≡ some r = ground (arith, h, nothing) in
      let (before, error, after, e, a, s) = first_strategy-split r xs later in
      (x ∷ before, error, after, ap (λ ys. x ∷ ys) e, (nothing, a), s)
  | inr (r', found) ↦ ([], x, xs, refl, tt, ground (arith, h, found))
]

first_strategy-in :
    (r : RetryStrategy) (before : List GoError) (x : GoError) (after : List GoError)
    → All (λ y. strategy y ≡ none) before
    → strategy x ≡ some r
    → first_strategy (before ++ (x ∷ after)) ≡ some r
unfolding first_strategy
first_strategy-in r [] x after a s = rw s refl
first_strategy-in r (y ∷ before) x after a s = rw (a.0) (first_strategy-in r before x after a.1 s)

pub classified-FirstStrategy :
    (r : RetryStrategy) (e : GoError) → as_classified e ≡ some r → FirstStrategy r e
classified-FirstStrategy r e h =
    let (before, error, after, s, a, k) =
      first_strategy-split r (tree e) (sym (classified-tree e) ∙ h) in
    record {
      before = before;
      error = error;
      after = after;
      splits = s;
      is_first = a;
      has_strategy = k;
    }

pub FirstStrategy-classified :
    (r : RetryStrategy) (e : GoError) → FirstStrategy r e → as_classified e ≡ some r
FirstStrategy-classified r e f =
    classified-tree e
    ∙ ap first_strategy f.splits
    ∙ first_strategy-in r f.before f.error f.after f.is_first f.has_strategy
