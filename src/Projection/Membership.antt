-- ===== src/Projection/Membership.antt =====
-- Identifiers in a history: what adding, cutting and sorting do to them.
use Prim.Native.String.{String}
use text.Mathlib.TextEquality.{eq_iff}
use docbuilder.Common.{
  ℕ, zero, suc, ◌≤◌, Bool, true, false, not, ◌&&◌, ◌||◌, ◌≡◌, refl, sym, subst, Bool-cases, inl,
  inr, length-take, List, [], ◌∷◌, length, take, arith,
}
use docbuilder.Common.Text.{str_eq}
use docbuilder.Projection.{
  contains, add_to_history_locked, move_up, sort_from, reverse_onto, sort_history,
}

-- No identifier occurs twice.
unfoldable pub distinct : List String → Bool
distinct [] = true
distinct (x ∷ xs) = not (contains x xs) && distinct xs

contains-take :
    (n : ℕ) (x : String) (xs : List String) → contains x xs ≡ false → contains x (take n xs) ≡ false
unfolding contains
contains-take zero x xs h = refl
contains-take (suc n) x [] h = refl
contains-take (suc n) x (y ∷ ys) h = ground (arith, contains-take n x ys)

-- What is in a cut list is in the list.
pub contains-of_take :
    (n : ℕ) (x : String) (xs : List String) → contains x (take n xs) ≡ true → contains x xs ≡ true
unfolding contains
contains-of_take zero x xs h = cc
contains-of_take (suc n) x [] h = cc
contains-of_take (suc n) x (y ∷ ys) h = ground (arith, contains-of_take n x ys)

pub distinct-take : (n : ℕ) (xs : List String) → distinct xs ≡ true → distinct (take n xs) ≡ true
unfolding distinct
distinct-take zero xs h = refl
distinct-take (suc n) [] h = refl
distinct-take (suc n) (y ∷ ys) h = ground (arith, distinct-take n ys, contains-take n y ys)

pub distinct-add :
    (n : ℕ) (x : String) (xs : List String)
    → distinct xs ≡ true
    → distinct (add_to_history_locked n x xs) ≡ true
unfolding add_to_history_locked distinct
distinct-add n x xs h = ground (arith, distinct-take n (x ∷ xs))

pub length-add :
    (n : ℕ) (x : String) (xs : List String)
    → length xs ≤ n
    → length (add_to_history_locked n x xs) ≤ n
unfolding add_to_history_locked
length-add n x xs h = grind (arith, length-take n (x ∷ xs))

pub contains-add :
    (n : ℕ) (x z : String) (xs : List String)
    → contains z (add_to_history_locked n x xs) ≡ true
    → (str_eq x z || contains z xs) ≡ true
unfolding add_to_history_locked contains
contains-add n x z xs h = ground (arith, contains-of_take n z (x ∷ xs))

-- The order of two texts does not matter to their equality.
str_eq_comm : (x y : String) → str_eq x y ≡ str_eq y x
str_eq_comm x y = ground (arith, eq_iff x y, eq_iff y x)

module _ (start : String → ℕ) where
  contains-move_up :
      (x z : String) (ys : List String)
      → contains z (move_up start x ys) ≡ (str_eq x z || contains z ys)
  unfolding contains move_up
  contains-move_up x z [] = refl
  contains-move_up x z (y ∷ ys) = ground (arith, contains-move_up x z ys)

  distinct-move_up :
      (x : String) (ys : List String)
      → contains x ys ≡ false
      → distinct ys ≡ true
      → distinct (move_up start x ys) ≡ true
  unfolding distinct move_up contains
  distinct-move_up x [] h d = refl
  distinct-move_up x (y ∷ ys) h d =
      ground (arith, distinct-move_up x ys, contains-move_up x y ys, str_eq_comm x y)

-- Two lists with nothing in common
Disjoint : List String → List String → Type 0
Disjoint xs ys = (z : String) → contains z xs ≡ true → contains z ys ≡ false

distinct-head : (x : String) (xs : List String) → distinct (x ∷ xs) ≡ true → contains x xs ≡ false
unfolding distinct
distinct-head x xs d = ground arith

distinct-tail : (x : String) (xs : List String) → distinct (x ∷ xs) ≡ true → distinct xs ≡ true
unfolding distinct
distinct-tail x xs d = ground arith

Disjoint-head : (x : String) (xs ys : List String) → Disjoint (x ∷ xs) ys → contains x ys ≡ false
unfolding Disjoint contains
Disjoint-head x xs ys apart = apart x (ground (arith, eq_iff x x))

-- Moving the first of `x ∷ xs` to a list with the items of `x ∷ ys` keeps the lists apart.
Disjoint-move :
    (x : String) (xs ys ys' : List String)
    → distinct (x ∷ xs) ≡ true
    → Disjoint (x ∷ xs) ys
    → ((z : String) → contains z ys' ≡ (str_eq x z || contains z ys))
    → Disjoint xs ys'
unfolding distinct Disjoint contains
Disjoint-move x xs ys ys' d apart same z h = elim (Bool-cases (str_eq x z)) [
  | inl e ↦
      let at : x ≡ z = (eq_iff x z).0 e in
      let here : contains x xs ≡ true = subst (λ w. contains w xs ≡ true) (sym at) h in
      ground (arith, here, d)
  | inr e ↦ ground (arith, same z, e, apart z, h)
]

module _ (start : String → ℕ) where
  distinct-sort_from :
      (done rest : List String)
      → distinct done ≡ true
      → distinct rest ≡ true
      → Disjoint rest done
      → distinct (sort_from start done rest) ≡ true
  unfolding sort_from
  distinct-sort_from done [] d e apart = d
  distinct-sort_from done (x ∷ rest) d e apart =
      distinct-sort_from (move_up start x done) rest
        (distinct-move_up start x done (Disjoint-head x rest done apart) d) (distinct-tail x rest e)
        (Disjoint-move x rest done _ e apart (λ z. contains-move_up start x z done))

  contains-sort_from :
      (z : String) (done rest : List String)
      → contains z (sort_from start done rest) ≡ (contains z done || contains z rest)
  unfolding sort_from contains
  contains-sort_from z done [] = ground arith
  contains-sort_from z done (x ∷ rest) =
      ground
        (arith, contains-sort_from z (move_up start x done) rest, contains-move_up start x z done)

distinct-reverse_onto :
    (xs acc : List String)
    → distinct xs ≡ true
    → distinct acc ≡ true
    → Disjoint xs acc
    → distinct (reverse_onto xs acc) ≡ true
unfolding reverse_onto
distinct-reverse_onto [] acc d e apart = e
distinct-reverse_onto (x ∷ xs) acc d e apart =
    distinct-reverse_onto xs (x ∷ acc) (distinct-tail x xs d)
      (unfold distinct in ground (arith, Disjoint-head x xs acc apart, e))
      (Disjoint-move x xs acc (x ∷ acc) d apart (λ z. unfold contains in refl))

contains-reverse_onto :
    (z : String) (xs acc : List String)
    → contains z (reverse_onto xs acc) ≡ (contains z xs || contains z acc)
unfolding reverse_onto contains
contains-reverse_onto z [] acc = refl
contains-reverse_onto z (x ∷ xs) acc = ground (arith, contains-reverse_onto z xs (x ∷ acc))

pub distinct-sort_history :
    (start : String → ℕ) (xs : List String)
    → distinct xs ≡ true
    → distinct (sort_history start xs) ≡ true
unfolding sort_history distinct Disjoint
distinct-sort_history start xs d =
    distinct-reverse_onto (sort_from start [] xs) []
      (distinct-sort_from start [] xs refl d (λ z h. unfold contains in refl)) refl
      (λ z h. unfold contains in refl)

pub contains-sort_history :
    (start : String → ℕ) (z : String) (xs : List String)
    → contains z (sort_history start xs) ≡ contains z xs
unfolding sort_history contains
contains-sort_history start z xs =
    ground
      (arith, contains-reverse_onto z (sort_from start [] xs) [], contains-sort_from start z [] xs)
