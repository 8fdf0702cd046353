-- ===== src/Markdown/Accept.antt =====
-- Which edits `ApplyEdits` accepts, in whatever order they are given.
use docbuilder.Common.{
  ℕ, suc, Bool, true, false, not, ◌&&◌, ◌||◌, ◌≡◌, refl, Option, none, some, List, [], ◌∷◌, length,
  arith,
}
use mathlib.Core.Option.{some-ne-none}
use docbuilder.Common.Int.{pos, lt_ℤ, is_neg}
use docbuilder.Common.Bytes.{Bytes}
use docbuilder.Markdown.{
  Edit, EditError, goes_before, insert_edit, sort_onto, sort_edits, check_edit, check_edits,
  or_else, apply_checked, apply_edits, overlaps,
}

-- A range of the source
unfoldable pub in_range : ℕ → Edit → Bool
in_range len e = not (is_neg e.start || is_neg e.end || lt_ℤ e.end e.start || lt_ℤ (pos len) e.end)

-- One range ends where the other starts, or before.
unfoldable pub apart : Edit → Edit → Bool
apart e f = not (lt_ℤ f.start e.end) || not (lt_ℤ e.start f.end)

unfoldable pub all_apart : Edit → List Edit → Bool
all_apart e [] = true
all_apart e (f ∷ fs) = apart e f && all_apart e fs

-- Ranges of a source of the given length, any two of them apart
unfoldable pub valid_edits : ℕ → List Edit → Bool
valid_edits len [] = true
valid_edits len (e ∷ es) = in_range len e && (all_apart e es && valid_edits len es)

-- No edit is to go before the one in front of it.
ordered_from : Edit → List Edit → Bool
ordered_from e [] = true
ordered_from e (f ∷ fs) = not (goes_before f e) && ordered_from f fs

ordered : List Edit → Bool
unfolding ordered_from
ordered [] = true
ordered (e ∷ es) = ordered_from e es

all_each_apart : List Edit → List Edit → Bool
all_each_apart [] fs = true
all_each_apart (e ∷ es) fs = all_apart e fs && all_each_apart es fs

apart_comm : (e f : Edit) → apart e f ≡ apart f e
unfolding apart
apart_comm e f = ground arith

goes_before_asymm : (e f : Edit) → goes_before e f ≡ true → goes_before f e ≡ false
unfolding goes_before
goes_before_asymm e f h = ground arith

goes_before-apart :
    (len : ℕ) (prev e : Edit)
    → goes_before e prev ≡ false
    → apart prev e ≡ true
    → in_range len prev ≡ true
    → in_range len e ≡ true
    → lt_ℤ prev.start e.end ≡ false
unfolding goes_before apart in_range
goes_before-apart len prev e h a r s = ground arith

ordered_from-insert_edit :
    (p e : Edit) (fs : List Edit)
    → ordered_from p fs ≡ true
    → goes_before e p ≡ false
    → ordered_from p (insert_edit e fs) ≡ true
unfolding ordered_from insert_edit
ordered_from-insert_edit p e [] o h = ground arith
ordered_from-insert_edit p e (f ∷ fs) o h =
    ground (arith, ordered_from-insert_edit f e fs, goes_before_asymm e f)

ordered-insert_edit :
    (e : Edit) (fs : List Edit) → ordered fs ≡ true → ordered (insert_edit e fs) ≡ true
unfolding ordered insert_edit
ordered-insert_edit e [] o = refl
ordered-insert_edit e (f ∷ fs) o =
    ground (arith, ordered_from-insert_edit f e fs, goes_before_asymm e f)

ordered-sort_onto : (done es : List Edit) → ordered done ≡ true → ordered (sort_onto done es) ≡ true
unfolding sort_onto
ordered-sort_onto done [] o = o
ordered-sort_onto done (e ∷ es) o =
    ordered-sort_onto (insert_edit e done) es (ordered-insert_edit e done o)

all_apart-insert_edit :
    (x e : Edit) (fs : List Edit) → all_apart x (insert_edit e fs) ≡ (apart x e && all_apart x fs)
unfolding all_apart insert_edit
all_apart-insert_edit x e [] = refl
all_apart-insert_edit x e (f ∷ fs) = ground (arith, all_apart-insert_edit x e fs)

valid_edits-insert_edit :
    (len : ℕ) (e : Edit) (fs : List Edit)
    → in_range len e ≡ true
    → all_apart e fs ≡ true
    → valid_edits len fs ≡ true
    → valid_edits len (insert_edit e fs) ≡ true
unfolding valid_edits insert_edit all_apart
valid_edits-insert_edit len e [] r a v = ground arith
valid_edits-insert_edit len e (f ∷ fs) r a v =
    ground (arith, valid_edits-insert_edit len e fs, all_apart-insert_edit f e fs, apart_comm e f)

all_each_apart-insert_edit :
    (e : Edit) (es fs : List Edit)
    → all_each_apart es (insert_edit e fs) ≡ (all_apart e es && all_each_apart es fs)
unfolding all_each_apart all_apart
all_each_apart-insert_edit e [] fs = refl
all_each_apart-insert_edit e (x ∷ es) fs =
    ground (arith, all_each_apart-insert_edit e es fs, all_apart-insert_edit x e fs, apart_comm e x)

all_each_apart-nil : (es : List Edit) → all_each_apart es [] ≡ true
unfolding all_each_apart all_apart
all_each_apart-nil [] = refl
all_each_apart-nil (e ∷ es) = all_each_apart-nil es

valid_edits-sort_onto :
    (len : ℕ) (done es : List Edit)
    → valid_edits len done ≡ true
    → valid_edits len es ≡ true
    → all_each_apart es done ≡ true
    → valid_edits len (sort_onto done es) ≡ true
unfolding sort_onto
valid_edits-sort_onto len done [] v w c = v
valid_edits-sort_onto len done (e ∷ es) v w c =
    valid_edits-sort_onto len (insert_edit e done) es
      (unfold valid_edits all_each_apart in ground (arith, valid_edits-insert_edit len e done))
      (unfold valid_edits in ground arith)
      (unfold valid_edits all_each_apart in ground (arith, all_each_apart-insert_edit e es done))

check_edit-accepts :
    (len i : ℕ) (prev : Option Edit) (e : Edit)
    → in_range len e ≡ true
    → overlaps prev e ≡ false
    → check_edit len i prev e ≡ none
unfolding check_edit in_range
check_edit-accepts len i prev e r o = ground arith

check_edits-behind :
    (len i : ℕ) (prev : Edit) (es : List Edit)
    → in_range len prev ≡ true
    → ordered_from prev es ≡ true
    → all_apart prev es ≡ true
    → valid_edits len es ≡ true
    → check_edits len i (some prev) es ≡ none
unfolding check_edits or_else
check_edits-behind len i prev [] r o a v = refl
check_edits-behind len i prev (e ∷ es) r o a v =
    let inside : in_range len e ≡ true = unfold valid_edits in ground arith in
    let first = check_edit-accepts len i (some prev) e inside (
      goes_before-apart len prev e (unfold ordered_from in ground arith)
        (unfold all_apart in ground arith) r inside) in
    let rest =
      check_edits-behind len (suc i) e es inside (unfold ordered_from in ground arith)
        (unfold valid_edits in ground arith) (unfold valid_edits in ground arith) in
    ground (arith, first, rest)

check_edits-accepts :
    (len : ℕ) (es : List Edit)
    → ordered es ≡ true
    → valid_edits len es ≡ true
    → check_edits len 0 none es ≡ none
unfolding check_edits or_else
check_edits-accepts len [] o v = refl
check_edits-accepts len (e ∷ es) o v =
    let inside : in_range len e ≡ true = unfold valid_edits in ground arith in
    let first = check_edit-accepts len 0 none e inside refl in
    let rest =
      check_edits-behind len 1 e es inside (unfold ordered in o)
        (unfold valid_edits in ground arith) (unfold valid_edits in ground arith) in
    ground (arith, first, rest)

accepts :
    (source : Bytes) (es : List Edit) (check : Option EditError)
    → check ≡ none
    → (apply_checked check es source).1 ≡ none
unfolding apply_checked
accepts source es none c = refl
accepts source es (some err) c = absurd (some-ne-none err c)

-- Edits whose ranges lie in the source, any two of them apart, are accepted in any order.
pub apply_edits-accepts :
    (source : Bytes) (es : List Edit)
    → valid_edits (length source) es ≡ true
    → (apply_edits source es).1 ≡ none
unfolding apply_edits
apply_edits-accepts source [] v = refl
apply_edits-accepts source (e ∷ es) v =
    let len = length source in
    accepts source (sort_edits (e ∷ es)) _ (
      check_edits-accepts len (sort_edits (e ∷ es))
        (unfold sort_edits in ordered-sort_onto [] (e ∷ es) (unfold ordered in refl))
        (unfold sort_edits in
          valid_edits-sort_onto len [] (e ∷ es) (unfold valid_edits in refl) v
            (all_each_apart-nil (e ∷ es))))
