-- ===== src/Config/Slices/Sorting.antt =====
-- The sort of normalizeStringSlice puts items that differ in order.
use Prim.Native.String.{String}
use text.Mathlib.TextEquality.{eq_iff}
use docbuilder.Common.{
  Bool, true, false, not, ◌&&◌, ◌||◌, ◌≡◌, refl, sym, ap, ◌∙◌, subst, List, [], ◌∷◌, arith,
  Bool-cases, inl, inr,
}
use docbuilder.Common.Text.{str_eq}
use docbuilder.Common.Order.{text_lt, text_lt_irrefl, text_lt_trans, text_lt_total}
use docbuilder.Config.Slices.{is_seen, move_down, sort_loop, reversed}

-- Every item stands before x, or behind it.
all_before : String → List String → Bool
all_before x [] = true
all_before x (y ∷ ys) = text_lt y x && all_before x ys

all_behind : String → List String → Bool
all_behind x [] = true
all_behind x (y ∷ ys) = text_lt x y && all_behind x ys

descending : List String → Bool
unfolding all_before
descending [] = true
descending (x ∷ xs) = all_before x xs && descending xs

-- Each item stands before all later ones, hence none is there twice.
unfoldable pub ascending : List String → Bool
unfolding all_behind
ascending [] = true
ascending (x ∷ xs) = all_behind x xs && ascending xs

unfoldable pub distinct : List String → Bool
distinct [] = true
distinct (x ∷ xs) = not (is_seen xs x) && distinct xs

all_before_trans :
    (x y : String) (ys : List String)
    → text_lt x y ≡ true
    → all_before x ys ≡ true
    → all_before y ys ≡ true
unfolding all_before
all_before_trans x y [] h k = refl
all_before_trans x y (z ∷ ys) h k =
    ground (arith, h, k, text_lt_trans z x y, all_before_trans x y ys h)

all_before-move_down :
    (z x : String) (ys : List String)
    → all_before z (move_down x ys) ≡ text_lt x z && all_before z ys
unfolding all_before move_down
all_before-move_down z x [] = refl
all_before-move_down z x (y ∷ ys) = ground (arith, all_before-move_down z x ys)

-- An item that is neither equal to another nor before it is behind it.
behind_other : (x y : String) → text_lt x y ≡ false → str_eq y x ≡ false → text_lt y x ≡ true
behind_other x y h k = elim (text_lt_total x y) [
  | inl before ↦ ground (arith, h, before)
  | inr (inl same) ↦ ground (arith, k, (eq_iff y x).1 (sym same))
  | inr (inr behind) ↦ behind
]

move_down-descending :
    (x : String) (ys : List String)
    → descending ys ≡ true
    → is_seen ys x ≡ false
    → descending (move_down x ys) ≡ true
unfolding descending move_down is_seen
move_down-descending x [] d n = ground arith
move_down-descending x (y ∷ ys) d n = ground (
  arith,
  d,
  n,
  move_down-descending x ys,
  all_before-move_down y x ys,
  behind_other x y,
  all_before_trans y x ys,
)

is_seen-move_down :
    (x : String) (ys : List String) (z : String)
    → is_seen (move_down x ys) z ≡ str_eq x z || is_seen ys z
unfolding is_seen move_down
is_seen-move_down x [] z = refl
is_seen-move_down x (y ∷ ys) z = ground (arith, is_seen-move_down x ys z)

is_seen-sort_loop :
    (sorted xs : List String) (z : String)
    → is_seen (sort_loop sorted xs) z ≡ is_seen sorted z || is_seen xs z
unfolding is_seen sort_loop
is_seen-sort_loop sorted [] z = ground arith
is_seen-sort_loop sorted (x ∷ xs) z =
    ground (arith, is_seen-sort_loop (move_down x sorted) xs z, is_seen-move_down x sorted z)

sort_loop-descending :
    (sorted xs : List String)
    → descending sorted ≡ true
    → distinct xs ≡ true
    → ((z : String) → is_seen xs z ≡ true → is_seen sorted z ≡ false)
    → descending (sort_loop sorted xs) ≡ true
unfolding sort_loop distinct
sort_loop-descending sorted [] d n apart = d
sort_loop-descending sorted (x ∷ xs) d n apart =
    sort_loop-descending (move_down x sorted) xs
      (move_down-descending x sorted d (apart x (unfold is_seen in ground (arith, eq_iff x x))))
      (ground (arith, n)) (λ z h. still_apart z h)
  where
    in_cons : (z : String) → is_seen xs z ≡ true → is_seen (x ∷ xs) z ≡ true
    in_cons z h = unfold is_seen in ground (arith, h)

    still_apart : (z : String) → is_seen xs z ≡ true → is_seen (move_down x sorted) z ≡ false
    still_apart z h =
        is_seen-move_down x sorted z ∙ ground (arith, n, h, eq_iff x z, apart z (in_cons z h))

all_before_seen :
    (x : String) (ys : List String) (z : String)
    → all_before x ys ≡ true
    → is_seen ys z ≡ true
    → text_lt z x ≡ true
unfolding all_before is_seen
all_before_seen x [] z h k = ground (arith, k)
all_before_seen x (y ∷ ys) z h k = ground (arith, h, k, eq_iff y z, all_before_seen x ys z)

all_behind_all :
    (x : String) (ys : List String)
    → ((y : String) → is_seen ys y ≡ true → text_lt x y ≡ true)
    → all_behind x ys ≡ true
unfolding all_behind is_seen
all_behind_all x [] h = refl
all_behind_all x (z ∷ zs) h =
    ground (
      arith,
      h z (ground (arith, eq_iff z z)),
      all_behind_all x zs (λ y k. h y (ground (arith, k))),
    )

is_seen-reversed :
    (xs ys : List String) (z : String) → is_seen (reversed xs ys) z ≡ is_seen xs z || is_seen ys z
unfolding is_seen reversed
is_seen-reversed [] ys z = refl
is_seen-reversed (x ∷ xs) ys z = ground (arith, is_seen-reversed xs (x ∷ ys) z)

-- All of the first list stand before x.
reversed-ascending :
    (xs ys : List String)
    → descending xs ≡ true
    → ascending ys ≡ true
    → ((x y : String) → is_seen xs x ≡ true → is_seen ys y ≡ true → text_lt x y ≡ true)
    → ascending (reversed xs ys) ≡ true
unfolding reversed
reversed-ascending [] ys d a h = a
reversed-ascending (x ∷ xs) ys d a h =
    reversed-ascending xs (x ∷ ys) (unfold descending in ground (arith, d))
      (unfold ascending in ground (arith, a, all_behind_all x ys after_x)) before_all
  where
    after_x : (y : String) → is_seen ys y ≡ true → text_lt x y ≡ true
    after_x y k = h x y (unfold is_seen in ground (arith, eq_iff x x)) k

    before_x : (z : String) → is_seen xs z ≡ true → text_lt z x ≡ true
    before_x z k = all_before_seen x xs z (unfold descending in ground (arith, d)) k

    in_cons : (z : String) → is_seen xs z ≡ true → is_seen (x ∷ xs) z ≡ true
    in_cons z k = unfold is_seen in ground (arith, k)

    before_all :
        (z y : String) → is_seen xs z ≡ true → is_seen (x ∷ ys) y ≡ true → text_lt z y ≡ true
    before_all z y k m = elim (Bool-cases (str_eq x y)) [
      | inl here ↦ subst (λ t. text_lt z t ≡ true) ((eq_iff x y).0 here) (before_x z k)
      | inr there ↦ h z y (in_cons z k) (unfold is_seen in ground (arith, m, there))
    ]

all_behind_seen :
    (x : String) (ys : List String) (z : String)
    → all_behind x ys ≡ true
    → is_seen ys z ≡ true
    → text_lt x z ≡ true
unfolding all_behind is_seen
all_behind_seen x [] z h k = ground (arith, k)
all_behind_seen x (y ∷ ys) z h k = ground (arith, h, k, eq_iff y z, all_behind_seen x ys z)

not_behind_itself : (x : String) (xs : List String) → all_behind x xs ≡ true → is_seen xs x ≡ false
not_behind_itself x xs h = elim (Bool-cases (is_seen xs x)) [
  | inl seen ↦ ground (arith, all_behind_seen x xs x h seen, text_lt_irrefl x)
  | inr not_seen ↦ not_seen
]

-- The first item of a list is not before the first of another with the same items.
not_before :
    (x y : String) (xs ys : List String)
    → ascending (y ∷ ys) ≡ true
    → ((z : String) → is_seen (x ∷ xs) z ≡ is_seen (y ∷ ys) z)
    → text_lt x y ≡ false
unfolding ascending is_seen
not_before x y xs ys a same = elim (Bool-cases (text_lt x y)) [
  | inl before ↦ ground (
    arith,
    a,
    before,
    same x,
    eq_iff x x,
    eq_iff y x,
    text_lt_irrefl x,
    text_lt_trans x y x,
    all_behind_seen y ys x,
  )
  | inr not_so ↦ not_so
]

pub ascending_unique :
    (xs ys : List String)
    → ascending xs ≡ true
    → ascending ys ≡ true
    → ((z : String) → is_seen xs z ≡ is_seen ys z)
    → xs ≡ ys
unfolding ascending is_seen
ascending_unique [] [] a b same = refl
ascending_unique [] (y ∷ ys) a b same = ground (arith, same y, eq_iff y y)
ascending_unique (x ∷ xs) [] a b same = ground (arith, same x, eq_iff x x)
ascending_unique (x ∷ xs) (y ∷ ys) a b same = elim (text_lt_total x y) [
  | inl before ↦ ground (arith, before, not_before x y xs ys b same)
  | inr (inl equal) ↦
      let rest : xs ≡ ys =
        ascending_unique xs ys (ground (arith, a)) (ground (arith, b)) (rest_same equal) in
      ap (λ t. t ∷ xs) equal ∙ ap (λ t. y ∷ t) rest
  | inr (inr behind) ↦ ground (arith, behind, not_before y x ys xs a (λ z. sym (same z)))
]
  where
    rest_same : x ≡ y → (z : String) → is_seen xs z ≡ is_seen ys z
    rest_same equal z =
        let absent_x : is_seen xs x ≡ false = not_behind_itself x xs (ground (arith, a)) in
        let absent_y : is_seen ys y ≡ false = not_behind_itself y ys (ground (arith, b)) in
        ground (arith, equal, absent_x, absent_y, same z, eq_iff x z, eq_iff y z)

-- A list without repetitions, sorted
pub sorted-ascending :
    (xs : List String)
    → distinct xs ≡ true
    → (ascending (reversed (sort_loop [] xs) []) ≡ true)
      × ((z : String) → is_seen (reversed (sort_loop [] xs) []) z ≡ is_seen xs z)
unfolding is_seen
sorted-ascending xs d = (
  reversed-ascending (sort_loop [] xs) []
      (sort_loop-descending [] xs (unfold descending in refl) d (λ z h. refl))
      (unfold ascending in refl) (λ x y h k. ground (arith, k)),
  λ z. ground (arith, is_seen-reversed (sort_loop [] xs) [] z, is_seen-sort_loop [] xs z),
)
