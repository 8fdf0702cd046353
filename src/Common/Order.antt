-- ===== src/Common/Order.antt =====
-- The order of Go strings, by their bytes, which for UTF-8 is the order of their code points.
use Prim.Native.Char.{Char, code}
use Prim.Native.Nat.{ℕ, Ordering, compare as compare_ℕ}
use Prim.Native.String.compare
use Prim.Native.String.{String, compare, then}
use text.Mathlib.Text.{is_lt}
use text.Mathlib.TextPositions.{compare_refl}
use text.Mathlib.TextEquality.{path_by_compare}
use mathlib.Core.Path.{◌≡◌, refl, ap, sym, ◌∙◌}
use mathlib.Core.Logic.{◌≢◌, ◌⊎◌, inl, inr}
use mathlib.Core.Bool.{Bool, true, false, true≢false}
use native.Mathlib.Omega.{arith}

-- s < t
abbrev pub text_lt : String → String → Bool
text_lt s t = is_lt (compare s t)

-- Of two texts that are not empty, their first characters decide, or else the rest.
by_first : Ordering → Bool → Bool
by_first Ordering.lt rest = true
by_first Ordering.eq rest = rest
by_first Ordering.gt rest = false

text_lt-cons :
    (c d : Char) (s t : String)
    → text_lt (String.◌∷◌ c s) (String.◌∷◌ d t)
      ≡ by_first (compare_ℕ (code c) (code d)) (text_lt s t)
unfolding by_first
text_lt-cons c d s t =
    ap is_lt (compare.cons-cons c d s t) ∙ is_lt-then (compare_ℕ (code c) (code d)) (compare s t)
  where
    is_lt-then : (o p : Ordering) → is_lt (then o p) ≡ by_first o (is_lt p)
    is_lt-then Ordering.lt p = refl
    is_lt-then Ordering.eq p = refl
    is_lt-then Ordering.gt p = refl

by_first_trans :
    (a b c : ℕ) (p q r : Bool)
    → by_first (compare_ℕ a b) p ≡ true
    → by_first (compare_ℕ b c) q ≡ true
    → (p ≡ true → q ≡ true → r ≡ true)
    → by_first (compare_ℕ a c) r ≡ true
unfolding by_first
by_first_trans a b c p q r h k l = ground (arith, h, k, l)

-- No text stands before itself.
pub text_lt_irrefl : (s : String) → text_lt s s ≡ false
text_lt_irrefl s = ap is_lt (compare_refl s)

pub text_lt_trans : (s t u : String) → text_lt s t ≡ true → text_lt t u ≡ true → text_lt s u ≡ true
text_lt_trans String.[] t (String.◌∷◌ e u) h k = ap is_lt (compare.nil-cons e u)
text_lt_trans String.[] String.[] String.[] h k = k
text_lt_trans String.[] (String.◌∷◌ d t) String.[] h k =
    absurd (true≢false (sym k ∙ ap is_lt (compare.cons-nil d t)))
text_lt_trans (String.◌∷◌ c s) String.[] u h k =
    absurd (true≢false (sym h ∙ ap is_lt (compare.cons-nil c s)))
text_lt_trans (String.◌∷◌ c s) (String.◌∷◌ d t) String.[] h k =
    absurd (true≢false (sym k ∙ ap is_lt (compare.cons-nil d t)))
text_lt_trans (String.◌∷◌ c s) (String.◌∷◌ d t) (String.◌∷◌ e u) h k =
    text_lt-cons c e s u
    ∙ by_first_trans (code c) (code d) (code e) (text_lt s t) (text_lt t u) (text_lt s u)
        (sym (text_lt-cons c d s t) ∙ h) (sym (text_lt-cons d e t u) ∙ k) (text_lt_trans s t u)

reversed_first :
    (a b : ℕ) (p q : Ordering)
    → then (compare_ℕ a b) p ≡ Ordering.gt
    → (p ≡ Ordering.gt → q ≡ Ordering.lt)
    → then (compare_ℕ b a) q ≡ Ordering.lt
reversed_first a b p q h k = ground (arith, h, k)

eq≢gt : Ordering.eq ≢ Ordering.gt
eq≢gt h = cc

lt≢gt : Ordering.lt ≢ Ordering.gt
lt≢gt h = cc

compare_reversed : (s t : String) → compare s t ≡ Ordering.gt → compare t s ≡ Ordering.lt
compare_reversed String.[] String.[] h = absurd (eq≢gt (sym (compare_refl String.[]) ∙ h))
compare_reversed String.[] (String.◌∷◌ d t) h = absurd (lt≢gt (sym (compare.nil-cons d t) ∙ h))
compare_reversed (String.◌∷◌ c s) String.[] h = compare.nil-cons c s
compare_reversed (String.◌∷◌ c s) (String.◌∷◌ d t) h =
    compare.cons-cons d c t s
    ∙ reversed_first (code c) (code d) (compare s t) (compare t s)
        (sym (compare.cons-cons c d s t) ∙ h) (compare_reversed s t)

-- One of two texts stands before the other, or they are equal.
pub text_lt_total : (s t : String) → (text_lt s t ≡ true) ⊎ ((s ≡ t) ⊎ (text_lt t s ≡ true))
text_lt_total s t = go (compare s t) refl
  where
    go : (o : Ordering) → compare s t ≡ o → (text_lt s t ≡ true) ⊎ ((s ≡ t) ⊎ (text_lt t s ≡ true))
    go Ordering.lt h = inl (ap is_lt h)
    go Ordering.eq h = inr (inl (path_by_compare s t h))
    go Ordering.gt h = inr (inr (ap is_lt (compare_reversed s t h)))
