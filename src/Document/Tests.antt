-- ===== src/Document/Tests.antt =====
-- A small document, and the theorems about parsed documents at it.
use docbuilder.Common.{◌≡◌, refl, true, false, none, List, [], ◌∷◌, ◌++◌, length}
use docbuilder.Common.Int.{pos}
use docbuilder.Common.Bytes.{Bytes, codes, count, has_prefix, index}
use docbuilder.Document.Edits.{parse-apply_body_edits}
use docbuilder.Document.{ParsedDoc, parsed, parse, apply_body_edits, line_offset}
use docbuilder.FrontMatter.{lf, split}
use docbuilder.Markdown.{Edit, sort_edits}
use docbuilder.Markdown.Accept.{valid_edits, in_range, apart, all_apart}
use docbuilder.Markdown.Splice.{edited}

abbrev content : Bytes
content =
    codes "---" ++ (lf ++ (codes "uid: 7" ++ (lf ++ (codes "---" ++ (lf ++ codes "see a.md")))))

abbrev page : ParsedDoc
page = record {
  original = content;
  fm_raw = codes "uid: 7" ++ lf;
  body = codes "see a.md";
  had_fm = true;
  style = record { newline = lf; has_trailing_newline = false };
}

abbrev rename : List Edit
rename = record { start = pos 4; end = pos 8; replacement = codes "b/a.md" } ∷ []

content_parsed : parse content ≡ parsed page
unfolding parse split has_prefix index
content_parsed = refl

three_lines : line_offset page ≡ 3
unfolding line_offset count
three_lines = refl

parse-apply_body_edits_example :
    let (out, err) = apply_body_edits page rename in
    (d' : ParsedDoc) × (err ≡ none)
    × (parse out ≡ parsed d')
    × (d'.had_fm ≡ true)
    × (d'.fm_raw ≡ page.fm_raw)
    × (d'.body ≡ edited page.body (sort_edits rename) (length page.body))
parse-apply_body_edits_example =
    parse-apply_body_edits content page rename content_parsed refl
      (unfold valid_edits in_range all_apart apart in refl)
