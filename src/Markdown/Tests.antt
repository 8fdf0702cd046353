-- ===== src/Markdown/Tests.antt =====
-- Two edits given out of order, and the theorems about `ApplyEdits` at them.
use docbuilder.Common.{Bool, ◌≡◌, refl, none, some, List, [], ◌∷◌, length}
use docbuilder.Common.Int.{pos}
use docbuilder.Common.Bytes.{Bytes, codes}
use docbuilder.Markdown.Accept.{valid_edits, in_range, apart, all_apart, apply_edits-accepts}
use docbuilder.Markdown.Splice.{edited, count_edits, apply_edits-edited}
use docbuilder.Markdown.{
  Edit, overlapping, goes_before, sort_edits, check_edit, check_edits, splice_all, apply_edits,
}

abbrev text : Bytes
text = codes "see a.md and b.md"

abbrev links : List Edit
links =
    record { start = pos 4; end = pos 8; replacement = codes "x" }
    ∷ record { start = pos 13; end = pos 17; replacement = codes "long.md" }
    ∷ []

abbrev clash : List Edit
clash =
    record { start = pos 4; end = pos 8; replacement = [] }
    ∷ record { start = pos 7; end = pos 9; replacement = [] }
    ∷ []

both_replaced : apply_edits text links ≡ (codes "see x and long.md", none)
unfolding apply_edits sort_edits check_edits check_edit splice_all goes_before
both_replaced = refl

clash_refused : apply_edits text clash ≡ ([], some overlapping)
unfolding apply_edits sort_edits check_edits check_edit splice_all goes_before
clash_refused = refl

apply_edits-edited_example :
    ((apply_edits text links).0 ≡ edited text (sort_edits links) (length text))
    × ((p : Edit → Bool) → count_edits p (sort_edits links) ≡ count_edits p links)
apply_edits-edited_example =
    apply_edits-edited text links
      (unfold apply_edits sort_edits check_edits check_edit splice_all goes_before in refl)

apply_edits-accepts_example : (apply_edits text links).1 ≡ none
apply_edits-accepts_example =
    apply_edits-accepts text links (unfold valid_edits in_range all_apart apart in refl)
