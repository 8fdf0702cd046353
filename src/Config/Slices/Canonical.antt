-- ===== src/Config/Slices/Canonical.antt =====
-- What normalizeStringSlice returns: the trimmed items in order, whatever order they had.
use Prim.Native.String.{String}
use text.Mathlib.TextEquality.{eq_iff}
use docbuilder.Common.{
  Bool, true, false, not, ◌&&◌, ◌||◌, ◌≡◌, refl, sym, ◌∙◌, List, [], ◌∷◌, ◌++◌, if◌then◌else◌,
  arith,
}
use docbuilder.Common.Text.{is_empty, str_eq}
use docbuilder.Config.{Library}
use docbuilder.Config.Slices.{
  Warning, Trimmed, is_seen, trim_step, trim_loop, normalize_string_slice,
}
use docbuilder.Config.Slices.Sorting.{ascending, distinct, sorted-ascending, ascending_unique}

-- Some item is z when trimmed.
unfoldable pub has_trimmed : Library → List String → String → Bool
has_trimmed l [] z = false
has_trimmed l (v ∷ vs) z = str_eq (l.trim_space v) z || has_trimmed l vs z

-- What the loop has seen and kept
record IsKept (s : Trimmed) : Type 0 where
  apart : distinct s.out ≡ true
  no_empty : is_seen s.out "" ≡ false
  same : (z : String) → is_seen s.seen z ≡ is_seen s.out z

is_seen-append :
    (xs ys : List String) (z : String) → is_seen (xs ++ ys) z ≡ is_seen xs z || is_seen ys z
unfolding is_seen
is_seen-append [] ys z = refl
is_seen-append (x ∷ xs) ys z = ground (arith, is_seen-append xs ys z)

distinct-snoc :
    (xs : List String) (t : String)
    → distinct xs ≡ true
    → is_seen xs t ≡ false
    → distinct (xs ++ (t ∷ [])) ≡ true
unfolding distinct is_seen
distinct-snoc [] t d n = refl
distinct-snoc (x ∷ xs) t d n =
    ground (arith, d, n, distinct-snoc xs t, is_seen-append xs (t ∷ []) x, eq_iff t x, eq_iff x t)

-- The step for a text that trims to t
keep : String → String → Trimmed → Trimmed
keep v t s = if is_empty t || is_seen s.seen t then record s { changed = true } else record {
  seen = t ∷ s.seen;
  out = s.out ++ (t ∷ []);
  changed = s.changed || not (str_eq t v);
}

keep-IsKept : (v t : String) (s : Trimmed) → IsKept s → IsKept (keep v t s)
unfolding keep is_seen
keep-IsKept v t s k = record {
  apart = ground (arith, k.apart, k.same t, distinct-snoc s.out t k.apart);
  no_empty = ground (arith, k.no_empty, is_seen-append s.out (t ∷ []) "");
  same = λ z. ground (arith, k.same z, is_seen-append s.out (t ∷ []) z);
}

-- z is kept already, or it is t and not empty.
is_seen-keep :
    (v t : String) (s : Trimmed) (z : String)
    → IsKept s
    → is_seen (keep v t s).out z ≡ is_seen s.out z || not (is_empty z) && str_eq t z
unfolding keep is_seen
is_seen-keep v t s z k = ground (
  arith,
  k.same t,
  k.no_empty,
  is_seen-append s.out (t ∷ []) z,
  eq_iff t z,
  eq_iff t "",
  eq_iff z "",
)

trim_step-IsKept :
    (l : Library) (v : String) (s : Trimmed)
    → IsKept s
    → IsKept (trim_step l v s)
      × ((z : String)
          → is_seen (trim_step l v s).out z
            ≡ is_seen s.out z || not (is_empty z) && str_eq (l.trim_space v) z)
unfolding trim_step keep
trim_step-IsKept l v s k =
    (keep-IsKept v (l.trim_space v) s k, λ z. is_seen-keep v (l.trim_space v) s z k)

trim_loop-IsKept :
    (l : Library) (vs : List String) (s : Trimmed)
    → IsKept s
    → IsKept (trim_loop l vs s)
      × ((z : String)
          → is_seen (trim_loop l vs s).out z
            ≡ is_seen s.out z || not (is_empty z) && has_trimmed l vs z)
unfolding trim_loop has_trimmed
trim_loop-IsKept l [] s k = (k, λ z. ground arith)
trim_loop-IsKept l (v ∷ vs) s k =
    let (step_kept, step_seen) = trim_step-IsKept l v s k in
    let (kept, seen) = trim_loop-IsKept l vs (trim_step l v s) step_kept in
    (kept, λ z. seen z ∙ ground (arith, step_seen z))

nothing-IsKept : IsKept (record { seen = []; out = []; changed = false })
unfolding distinct is_seen
nothing-IsKept = record { apart = refl; no_empty = refl; same = λ z. refl }

-- In order, each item once, and just the items that are not empty when trimmed
pub record IsCanonical (l : Library) (vs out : List String) : Type 0 where
  pub in_order : ascending out ≡ true
  pub same : (z : String) → is_seen out z ≡ not (is_empty z) && has_trimmed l vs z

normalize_string_slice-IsCanonical :
    (l : Library) (label : String) (vs : List String) (ws : List Warning)
    → IsCanonical l vs (normalize_string_slice l label vs ws).0
unfolding normalize_string_slice
normalize_string_slice-IsCanonical l label [] ws = record {
  in_order = unfold ascending in refl;
  same = λ z. unfold is_seen has_trimmed in ground arith;
}
normalize_string_slice-IsCanonical l label (v ∷ vs) ws =
    let (kept, seen) =
      trim_loop-IsKept l (v ∷ vs) (record { seen = []; out = []; changed = false })
        nothing-IsKept in
    let out = (trim_loop l (v ∷ vs) (record { seen = []; out = []; changed = false })).out in
    let (in_order, sorted) = sorted-ascending out kept.apart in
    record { in_order = in_order; same = λ z. ground (arith, seen z, sorted z, nothing_seen z) }
  where
    nothing_seen : (z : String) → is_seen [] z ≡ false
    nothing_seen z = unfold is_seen in refl

-- Lists of a configuration are canonical after normalizing: two lists with the same items after
-- trimming, empty ones aside, in whatever order and however often, become the same list, whose
-- items are in order, each one once, and just those items.
pub normalize_string_slice_unordered :
    (l : Library) (label : String) (vs us : List String) (ws : List Warning)
    → ((z : String)
        → not (is_empty z) && has_trimmed l vs z ≡ not (is_empty z) && has_trimmed l us z)
    → ((normalize_string_slice l label vs ws).0 ≡ (normalize_string_slice l label us ws).0)
      × IsCanonical l vs (normalize_string_slice l label vs ws).0
normalize_string_slice_unordered l label vs us ws same =
    let of_vs = normalize_string_slice-IsCanonical l label vs ws in
    let of_us = normalize_string_slice-IsCanonical l label us ws in
    (
      ascending_unique _ _ of_vs.in_order of_us.in_order
          (λ z. of_vs.same z ∙ same z ∙ sym (of_us.same z)),
      of_vs,
    )
