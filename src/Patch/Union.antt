-- ===== src/Patch/Union.antt =====
-- The union of two lists in `mergeStringArray`, next to the first occurrences of the items.
use Prim.Native.String.{String}
use text.Mathlib.TextEquality.{eq_iff}
use mathlib.Core.List.{append_assoc, append-nil}
use docbuilder.Common.{
  Bool, true, false, not, ◌&&◌, ◌||◌, ◌≡◌, refl, sym, ap, ◌∙◌, List, [], ◌∷◌, ◌++◌, arith,
  if◌then◌else◌, if_true, if_false, Bool-cases, inl, inr,
}
use docbuilder.Common.Text.{str_eq}
use docbuilder.Patch.{contains, add_unseen, merge_string_array, union_items}

remove : String → List String → List String
remove x [] = []
remove x (y ∷ ys) = let rest = remove x ys in if str_eq x y then rest else y ∷ rest

-- Each item where it occurs first
unfoldable pub firsts : List String → List String
unfolding remove
firsts [] = []
firsts (x ∷ xs) = x ∷ remove x (firsts xs)

without : List String → List String → List String
without seen [] = []
without seen (y ∷ ys) = let rest = without seen ys in if contains seen y then rest else y ∷ rest

unfoldable pub distinct : List String → Bool
distinct [] = true
distinct (x ∷ xs) = not (contains xs x) && distinct xs

without_nothing : (ys : List String) → without [] ys ≡ ys
unfolding without contains
without_nothing [] = refl
without_nothing (y ∷ ys) = ap (λ t. y ∷ t) (without_nothing ys)

without-remove_seen :
    (seen : List String) (x : String) (ys : List String)
    → contains seen x ≡ true
    → without seen (remove x ys) ≡ without seen ys
unfolding without remove
without-remove_seen seen x [] h = refl
without-remove_seen seen x (y ∷ ys) h =
    ground (arith, h, eq_iff x y, without-remove_seen seen x ys h)

without-cons :
    (seen : List String) (x : String) (ys : List String)
    → without (x ∷ seen) ys ≡ without seen (remove x ys)
unfolding without remove contains
without-cons seen x [] = refl
without-cons seen x (y ∷ ys) = ground (arith, without-cons seen x ys)

remove-without :
    (seen : List String) (x : String) (ys : List String)
    → without (x ∷ seen) ys ≡ remove x (without seen ys)
unfolding without remove contains
remove-without seen x [] = refl
remove-without seen x (y ∷ ys) = ground (arith, remove-without seen x ys)

add_unseen-without :
    (xs seen result : List String)
    → (add_unseen xs (seen, result)).1 ≡ result ++ without seen (firsts xs)
unfolding add_unseen firsts without
add_unseen-without [] seen result = sym (append-nil result)
add_unseen-without (x ∷ xs) seen result = elim (Bool-cases (contains seen x)) [
  | inl h ↦
      ap (λ s. (add_unseen xs s).1) (if_true (contains seen x) _ _ h)
      ∙ add_unseen-without xs seen result
      ∙ ap (λ t. result ++ t) (sym (skipped h))
  | inr h ↦
      ap (λ s. (add_unseen xs s).1) (if_false (contains seen x) _ _ h)
      ∙ add_unseen-without xs (x ∷ seen) (result ++ (x ∷ []))
      ∙ append_assoc result (x ∷ []) (without (x ∷ seen) (firsts xs))
      ∙ ap (λ t. result ++ t) (sym (added h))
]
  where
    skipped :
        contains seen x ≡ true → without seen (x ∷ remove x (firsts xs)) ≡ without seen (firsts xs)
    skipped h = ground (arith, h, without-remove_seen seen x (firsts xs) h)

    added :
        contains seen x ≡ false
        → without seen (x ∷ remove x (firsts xs)) ≡ x ∷ without (x ∷ seen) (firsts xs)
    added h = ground (arith, h, without-cons seen x (firsts xs))

add_unseen-append :
    (xs ys : List String) (state : List String × List String)
    → add_unseen (xs ++ ys) state ≡ add_unseen ys (add_unseen xs state)
unfolding add_unseen
add_unseen-append [] ys (seen, result) = refl
add_unseen-append (x ∷ xs) ys (seen, result) =
    add_unseen-append xs ys
      (if contains seen x then (seen, result) else (x ∷ seen, result ++ (x ∷ [])))

contains-remove :
    (x : String) (ys : List String) (z : String)
    → contains (remove x ys) z ≡ not (str_eq x z) && contains ys z
unfolding contains remove
contains-remove x [] z = ground arith
contains-remove x (y ∷ ys) z =
    ground (arith, contains-remove x ys z, eq_iff x y, eq_iff y z, eq_iff x z)

distinct-remove :
    (x : String) (ys : List String) → distinct ys ≡ true → distinct (remove x ys) ≡ true
unfolding distinct remove
distinct-remove x [] h = refl
distinct-remove x (y ∷ ys) h = ground (arith, h, distinct-remove x ys, contains-remove x ys y)

firsts-distinct : (xs : List String) → distinct (firsts xs) ≡ true
unfolding firsts distinct
firsts-distinct [] = refl
firsts-distinct (x ∷ xs) = ground (
  arith,
  distinct-remove x (firsts xs) (firsts-distinct xs),
  contains-remove x (firsts xs) x,
  eq_iff x x,
)

contains-firsts : (xs : List String) (z : String) → contains (firsts xs) z ≡ contains xs z
unfolding contains firsts
contains-firsts [] z = refl
contains-firsts (x ∷ xs) z = ground (arith, contains-firsts xs z, contains-remove x (firsts xs) z)

contains-append :
    (xs ys : List String) (z : String) → contains (xs ++ ys) z ≡ contains xs z || contains ys z
unfolding contains
contains-append [] ys z = refl
contains-append (x ∷ xs) ys z = ground (arith, contains-append xs ys z)

-- A union of two lists holds each item where it occurs first in the one list behind the other:
-- no item twice, and exactly the items of the two.
pub merge_string_array-union :
    (a b : List String)
    → (merge_string_array union_items a b ≡ firsts (a ++ b))
      × (distinct (merge_string_array union_items a b) ≡ true)
      × ((x : String)
          → contains (merge_string_array union_items a b) x ≡ contains a x || contains b x)
unfolding merge_string_array
merge_string_array-union a b =
    let union : (add_unseen b (add_unseen a ([], []))).1 ≡ firsts (a ++ b) =
      ap (λ t. t.1) (sym (add_unseen-append a b ([], [])))
      ∙ add_unseen-without (a ++ b) [] []
      ∙ without_nothing (firsts (a ++ b)) in
    (
      union,
      rw union (firsts-distinct (a ++ b)),
      λ x. rw union (contains-firsts (a ++ b) x ∙ contains-append a b x),
    )

remove_absent : (x : String) (ys : List String) → contains ys x ≡ false → remove x ys ≡ ys
unfolding remove contains
remove_absent x [] h = refl
remove_absent x (y ∷ ys) h = ground (arith, h, eq_iff x y, eq_iff y x, remove_absent x ys)

firsts_fixed : (xs : List String) → distinct xs ≡ true → firsts xs ≡ xs
unfolding firsts distinct
firsts_fixed [] h = refl
firsts_fixed (x ∷ xs) h =
    ap (λ t. x ∷ remove x t) (firsts_fixed xs (ground (arith, h)))
    ∙ ap (λ t. x ∷ t) (remove_absent x xs (ground (arith, h)))

remove-append :
    (x : String) (xs ys : List String) → remove x (xs ++ ys) ≡ remove x xs ++ remove x ys
unfolding remove
remove-append x [] ys = refl
remove-append x (y ∷ xs) ys = ground (arith, remove-append x xs ys)

firsts-append : (xs ys : List String) → firsts (xs ++ ys) ≡ firsts xs ++ without xs (firsts ys)
unfolding firsts
firsts-append [] ys = sym (without_nothing (firsts ys))
firsts-append (x ∷ xs) ys =
    ap (λ t. x ∷ remove x t) (firsts-append xs ys)
    ∙ ap (λ t. x ∷ t) (remove-append x (firsts xs) (without xs (firsts ys)))
    ∙ ap (λ t. x ∷ (remove x (firsts xs) ++ t)) (sym (remove-without xs x (firsts ys)))

without_all :
    (seen ys : List String)
    → ((x : String) → contains ys x ≡ true → contains seen x ≡ true)
    → without seen ys ≡ []
unfolding without contains
without_all seen [] h = refl
without_all seen (y ∷ ys) h = ground (
  arith,
  h y,
  eq_iff y y,
  without_all seen ys (λ x in_ys. h x (ground (arith, in_ys, eq_iff y x))),
)

union_firsts : (a b : List String) → merge_string_array union_items a b ≡ firsts (a ++ b)
union_firsts a b = (merge_string_array-union a b).0

-- A union with the same items again changes nothing.
pub union_twice :
    (a b : List String)
    → merge_string_array union_items (merge_string_array union_items a b) b
      ≡ merge_string_array union_items a b
union_twice a b =
    let once = firsts (a ++ b) in
    ap (λ t. merge_string_array union_items t b) (union_firsts a b)
    ∙ union_firsts once b
    ∙ firsts-append once b
    ∙ ap (λ t. t ++ without once (firsts b)) (firsts_fixed once (firsts-distinct (a ++ b)))
    ∙ ap (λ t. once ++ t) (without_all once (firsts b) seen_before)
    ∙ append-nil once
    ∙ sym (union_firsts a b)
  where
    seen_before : (x : String) → contains (firsts b) x ≡ true → contains (firsts (a ++ b)) x ≡ true
    seen_before x h =
        ground (arith, h, contains-firsts (a ++ b) x, contains-append a b x, contains-firsts b x)
