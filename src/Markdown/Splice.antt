-- ===== src/Markdown/Splice.antt =====
-- What `ApplyEdits` returns, described by the source and the edits alone.
use mathlib.Core.List.{append-nil, append_assoc}
use native.Mathlib.Nat.{suc-sub-suc, sub-zero}
use docbuilder.Common.{
  ℕ, zero, suc, ◌+◌, ◌-◌, Bool, if◌then◌else◌, ◌≤◌, ◌≡◌, refl, sym, ap, ◌∙◌, Option, none, some,
  List, [], ◌∷◌, ◌++◌, length, take, drop, arith,
}
use docbuilder.Common.Int.{pos_part}
use docbuilder.Common.Bytes.{Bytes}
use docbuilder.Markdown.{
  Edit, EditError, check_edit, check_edits, or_else, splice, splice_all, apply_checked, apply_edits,
  insert_edit, sort_onto, sort_edits,
}

-- The first `upto` bytes of the source with the edits, which stand from the last to the first: the
-- bytes between two edits are those of the source.
unfoldable pub edited : Bytes → List Edit → ℕ → Bytes
edited source [] upto = take upto source
edited source (e ∷ es) upto =
    edited source es (pos_part e.start)
    ++ (e.replacement ++ take (upto - pos_part e.end) (drop (pos_part e.end) source))

take-prefix :
    (n m : ℕ) (xs ys : Bytes) → n ≤ m → m ≤ length xs → take n (take m xs ++ ys) ≡ take n xs
take-prefix zero m xs ys h l = refl
take-prefix (suc n) zero xs ys h l = absurd (omega (arith, h))
take-prefix (suc n) (suc m) [] ys h l = absurd (omega (arith, l))
take-prefix (suc n) (suc m) (x ∷ xs) ys h l =
    ap (λ t. x ∷ t) (take-prefix n m xs ys (omega (arith, h)) (omega (arith, l)))

drop-prefix :
    (n m : ℕ) (xs ys : Bytes)
    → n ≤ m
    → m ≤ length xs
    → drop n (take m xs ++ ys) ≡ take (m - n) (drop n xs) ++ ys
drop-prefix zero m xs ys h l = rw (sub-zero m)
drop-prefix (suc n) zero xs ys h l = absurd (omega (arith, h))
drop-prefix (suc n) (suc m) [] ys h l = absurd (omega (arith, l))
drop-prefix (suc n) (suc m) (x ∷ xs) ys h l =
    rw (suc-sub-suc m n) (drop-prefix n m xs ys (omega (arith, h)) (omega (arith, l)))

-- The start of the edit before, or the end of the source
upper : ℕ → Option Edit → ℕ
upper len none = len
upper len (some prev) = pos_part prev.start

check_edit-range :
    (len i : ℕ) (prev : Option Edit) (e : Edit)
    → check_edit len i prev e ≡ none
    → (pos_part e.start ≤ pos_part e.end)
      × (pos_part e.end ≤ upper len prev)
      × (pos_part e.end ≤ len)
unfolding check_edit upper
check_edit-range len i none e h = ground arith
check_edit-range len i (some prev) e h = ground arith

check_edits-first :
    (len i : ℕ) (prev : Option Edit) (e : Edit) (es : List Edit)
    → check_edits len i prev (e ∷ es) ≡ none
    → (check_edit len i prev e ≡ none) × (check_edits len (suc i) (some e) es ≡ none)
unfolding check_edits or_else
check_edits-first len i prev e es h = ground arith

module _ (source : Bytes) where
  splice-edited :
      (e : Edit) (upto : ℕ) (tail : Bytes)
      → pos_part e.start ≤ pos_part e.end
      → pos_part e.end ≤ upto
      → upto ≤ length source
      → splice e (take upto source ++ tail)
        ≡ take (pos_part e.start) source
          ++ (e.replacement
              ++ (take (upto - pos_part e.end) (drop (pos_part e.end) source) ++ tail))
  splice-edited e upto tail a b c = rw (
    take-prefix (pos_part e.start) upto source tail (omega (arith, a, b)) c,
    drop-prefix (pos_part e.end) upto source tail b c,
  )

  splice_all-edited :
      (es : List Edit) (i upto : ℕ) (prev : Option Edit) (tail : Bytes)
      → check_edits (length source) i prev es ≡ none
      → upto ≡ upper (length source) prev
      → upto ≤ length source
      → splice_all es (take upto source ++ tail) ≡ edited source es upto ++ tail
  unfolding splice_all edited
  splice_all-edited [] i upto prev tail ok u l = refl
  splice_all-edited (e ∷ es) i upto prev tail ok u l =
      let (first, rest) = check_edits-first (length source) i prev e es ok in
      let (a, b, c) = check_edit-range (length source) i prev e first in
      let s = pos_part e.start in
      let mid = take (upto - pos_part e.end) (drop (pos_part e.end) source) in
      let tail' = e.replacement ++ (mid ++ tail) in
      ap (splice_all es) (splice-edited e upto tail a (omega (arith, b, u)) l)
      ∙ splice_all-edited es (suc i) s (some e) tail' rest (unfold upper in refl)
          (omega (arith, a, c))
      ∙ ap (λ t. edited source es s ++ t) (sym (append_assoc e.replacement mid tail))
      ∙ sym (append_assoc (edited source es s) (e.replacement ++ mid) tail)

take-all : (xs : Bytes) → take (length xs) xs ≡ xs
take-all [] = refl
take-all (x ∷ xs) = ap (λ t. x ∷ t) (take-all xs)

checked-edited :
    (source : Bytes) (es : List Edit) (check : Option EditError)
    → check_edits (length source) 0 none es ≡ check
    → (apply_checked check es source).1 ≡ none
    → (apply_checked check es source).0 ≡ edited source es (length source)
unfolding apply_checked
checked-edited source es (some err) c ok = cc
checked-edited source es none c ok =
    ap (splice_all es) (sym (append-nil source) ∙ ap (λ t. t ++ []) (sym (take-all source)))
    ∙ splice_all-edited source es 0 (length source) none [] c (unfold upper in refl) (omega arith)
    ∙ append-nil (edited source es (length source))

applied :
    (source : Bytes) (es : List Edit)
    → (apply_edits source es).1 ≡ none
    → (apply_edits source es).0 ≡ edited source (sort_edits es) (length source)
unfolding apply_edits edited sort_edits
applied source [] ok = sym (take-all source)
applied source (e ∷ es) ok = checked-edited source (sort_edits (e ∷ es)) _ refl ok

-- How many edits meet a test
unfoldable pub count_edits : (Edit → Bool) → List Edit → ℕ
count_edits p [] = 0
count_edits p (e ∷ es) = (if p e then 1 else 0) + count_edits p es

count-insert_edit :
    (p : Edit → Bool) (e : Edit) (fs : List Edit)
    → count_edits p (insert_edit e fs) ≡ count_edits p (e ∷ fs)
unfolding count_edits insert_edit
count-insert_edit p e [] = refl
count-insert_edit p e (f ∷ fs) = ground (arith, count-insert_edit p e fs)

count-sort_onto :
    (p : Edit → Bool) (done es : List Edit)
    → count_edits p (sort_onto done es) ≡ count_edits p done + count_edits p es
unfolding count_edits sort_onto
count-sort_onto p done [] = omega arith
count-sort_onto p done (e ∷ es) =
    count-sort_onto p (insert_edit e done) es
    ∙ (unfold count_edits in omega (arith, count-insert_edit p e done))

-- When `ApplyEdits` returns no error, its result is the source with each edited range replaced: the
-- replacements in the order of their ranges, and between them the bytes of the source unchanged.
-- The edits so ordered are the edits given, each as often.
pub apply_edits-edited :
    (source : Bytes) (es : List Edit)
    → (apply_edits source es).1 ≡ none
    → ((apply_edits source es).0 ≡ edited source (sort_edits es) (length source))
      × ((p : Edit → Bool) → count_edits p (sort_edits es) ≡ count_edits p es)
apply_edits-edited source es ok = (
  applied source es ok,
  λ p. unfold sort_edits count_edits in count-sort_onto p [] es ∙ omega arith,
)
