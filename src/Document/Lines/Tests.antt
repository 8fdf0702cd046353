-- ===== src/Document/Lines/Tests.antt =====
-- A body with a fenced block and inline code, and the theorems about the search at it.
use docbuilder.Common.{◌≡◌, ◌≢◌, refl, none, ◌-◌, [], ◌++◌, length, drop}
use docbuilder.Common.Int.{pos}
use docbuilder.Common.Bytes.{Bytes, codes, has_prefix, index, count}
use docbuilder.Document.Lines.{
  split_lines, clamp, compute_skippable_lines, is_inside_inline_code, find_outside, space_length,
  find_next_line_containing,
}
use docbuilder.Document.Lines.Next.{IsFirst, find_next_line_containing-IsFirst}
use docbuilder.FrontMatter.{lf}

abbrev target : Bytes
target = codes "a.md"

abbrev in_code : Bytes
in_code = codes "`a.md` a.md"

abbrev body : Bytes
body =
    codes "```"
    ++ (lf
        ++ (codes "a.md"
            ++ (lf ++ (codes "```" ++ (lf ++ (codes "`a.md`" ++ (lf ++ codes "see a.md")))))))

target_given : target ≢ []
target_given e = cc

body_given : body ≢ []
body_given e = cc

fifth_line : find_next_line_containing target (pos 1) body ≡ 5
unfolding find_next_line_containing split_lines compute_skippable_lines find_outside space_length
    is_inside_inline_code has_prefix index count
fifth_line = refl

find_next_line_containing-IsFirst_example :
    let lines = split_lines [] body in
    let first = clamp (pos 2) (length lines) - 1 in
    IsFirst target first
      (drop first lines)
      (drop first (compute_skippable_lines none lines))
      (find_next_line_containing target (pos 2) body)
find_next_line_containing-IsFirst_example =
    find_next_line_containing-IsFirst target (pos 2) body target_given body_given
