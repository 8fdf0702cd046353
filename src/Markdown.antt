-- ===== src/Markdown.antt =====
-- internal/markdown/edits.go: replacements of byte ranges. `sort.Slice` is an insertion sort, as in
-- Go for up to 12 edits; it may order otherwise only edits of the same range.
pub mod Splice
pub mod Accept
mod Tests
use docbuilder.Common.{
  ℕ, suc, Bool, true, false, not, ◌&&◌, ◌||◌, Option, none, some, List, [], ◌∷◌, ◌++◌,
  if◌then◌else◌, length, take, drop,
}
use docbuilder.Common.Int.{ℤ, pos, negsuc, lt_ℤ, is_neg, pos_part}
use docbuilder.Common.Bytes.{Bytes}

-- Edit
pub record Edit : Type 0 where
  pub start : ℤ
  pub end : ℤ
  pub replacement : Bytes

pub data EditError : Type 0 where
  negative_range end_before_start out_of_bounds : ℕ → EditError
  overlapping : EditError

-- The comparison given to sort.Slice: whether e comes before f
goes_before : Edit → Edit → Bool
goes_before e f =
    if lt_ℤ e.start f.start || lt_ℤ f.start e.start then lt_ℤ f.start e.start else lt_ℤ f.end e.end

insert_edit : Edit → List Edit → List Edit
insert_edit e [] = e ∷ []
insert_edit e (f ∷ fs) =
    let later = insert_edit e fs in if goes_before e f then e ∷ f ∷ fs else f ∷ later

-- An edit is put behind those of the same range, which stood before it.
sort_onto : List Edit → List Edit → List Edit
unfolding insert_edit
sort_onto done [] = done
sort_onto done (e ∷ es) = sort_onto (insert_edit e done) es

-- sort.Slice(sorted, ...)
pub sort_edits : List Edit → List Edit
unfolding sort_onto
sort_edits es = sort_onto [] es

abbrev overlaps : Option Edit → Edit → Bool
overlaps none e = false
overlaps (some prev) e = lt_ℤ prev.start e.end

-- The checks of the edit with number i, behind `prev`
pub check_edit : ℕ → ℕ → Option Edit → Edit → Option EditError
check_edit len i prev e =
    if is_neg e.start || is_neg e.end
    then some (negative_range i)
    else if lt_ℤ e.end e.start
    then some (end_before_start i)
    else if lt_ℤ (pos len) e.end
    then some (out_of_bounds i)
    else if overlaps prev e
    then some overlapping
    else none

or_else : Option EditError → Option EditError → Option EditError
or_else none later = later
or_else (some err) later = some err

-- The loop of the checks
pub check_edits : ℕ → ℕ → Option Edit → List Edit → Option EditError
unfolding check_edit or_else
check_edits len i prev [] = none
check_edits len i prev (e ∷ es) =
    or_else (check_edit len i prev e) (check_edits len (suc i) (some e) es)

-- out[:e.Start] + e.Replacement + out[e.End:]
abbrev pub splice : Edit → Bytes → Bytes
splice e out = take (pos_part e.start) out ++ (e.replacement ++ drop (pos_part e.end) out)

-- The loop of the replacements
unfoldable pub splice_all : List Edit → Bytes → Bytes
splice_all [] out = out
splice_all (e ∷ es) out = splice_all es (splice e out)

apply_checked : Option EditError → List Edit → Bytes → Bytes × Option EditError
apply_checked (some err) es source = ([], some err)
apply_checked none es source = (splice_all es source, none)

-- ApplyEdits
pub apply_edits : Bytes → List Edit → Bytes × Option EditError
unfolding check_edits apply_checked
apply_edits source [] = (source, none)
apply_edits source (e ∷ es) =
    let sorted = sort_edits (e ∷ es) in
    apply_checked (check_edits (length source) 0 none sorted) sorted source
