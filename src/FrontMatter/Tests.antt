-- ===== src/FrontMatter/Tests.antt =====
-- Documents split and joined, and the round trips at concrete ones.
use docbuilder.Common.{◌≡◌, refl, true, false, none, some, []}
use docbuilder.Common.Bytes.{Bytes, codes, has_prefix, index}
use docbuilder.FrontMatter.{lf, crlf, missing_closing_delimiter, split, join}
use docbuilder.FrontMatter.Reparse.{split-join}
use docbuilder.FrontMatter.RoundTrip.{join-split}

abbrev page : Bytes
page = codes "---\ntitle: A\n---\n# A\n"

abbrev windows_page : Bytes
windows_page = codes "---\r\ntitle: A\r\n---\r\n# A"

split-page :
    let p = split page in
    (p.front_matter ≡ codes "title: A\n")
    × (p.body ≡ codes "# A\n")
    × (p.had ≡ true)
    × (p.style ≡ record { newline = lf; has_trailing_newline = true })
unfolding split index
split-page = (refl, refl, refl, refl)

split-windows_page :
    let p = split windows_page in
    (p.front_matter ≡ codes "title: A\r\n")
    × (p.body ≡ codes "# A")
    × (p.style ≡ record { newline = crlf; has_trailing_newline = false })
unfolding split index
split-windows_page = (refl, refl, refl)

split_empty : let p = split (codes "---\n---\nx") in (p.front_matter ≡ []) × (p.body ≡ codes "x")
unfolding split has_prefix
split_empty = (refl, refl)

split_open : (split (codes "---\ntitle: A\n")).error ≡ some missing_closing_delimiter
unfolding split index
split_open = refl

join-split_example : let p = split page in join p.front_matter p.body p.had p.style ≡ page
unfolding split index
join-split_example = join-split page refl

split-join_example :
    let p = split page in
    let q = split (join p.front_matter (codes "---\nnew\n---\n") true p.style) in
    (q.front_matter ≡ p.front_matter)
    × (q.body ≡ codes "---\nnew\n---\n")
    × (q.had ≡ true)
    × (q.style.newline ≡ p.style.newline)
    × (q.error ≡ none)
unfolding split index
split-join_example = split-join page (codes "---\nnew\n---\n") refl
