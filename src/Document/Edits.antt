-- ===== src/Document/Edits.antt =====
-- Edits of the body of a parsed document.
use docbuilder.Common.{
  Bool, true, false, ◌≡◌, refl, sym, ap, ◌∙◌, Option, none, some, List, length, arith,
}
use mathlib.Core.Option.{some-ne-none}
use docbuilder.Common.Bytes.{Bytes}
use docbuilder.FrontMatter.{Style, SplitError, Parts, split, join}
use docbuilder.FrontMatter.RoundTrip.{join-split}
use docbuilder.FrontMatter.Reparse.{split-join}
use docbuilder.Markdown.{Edit, EditError, apply_edits, sort_edits}
use docbuilder.Markdown.Accept.{valid_edits, apply_edits-accepts}
use docbuilder.Markdown.Splice.{edited, apply_edits-edited}
use docbuilder.Document.{ParsedDoc, parsed, parse_parts, parse, bytes, with_body, apply_body_edits}
use docbuilder.Document.Offset.{parse_parts-parsed}

-- A document joins as the parts from which it was parsed, with any body.
same_join :
    (d : ParsedDoc) (fm x : Bytes) (style : Style) (had : Bool)
    → d.had_fm ≡ had
    → d.style ≡ style
    → (had ≡ true → d.fm_raw ≡ fm)
    → join d.fm_raw x d.had_fm d.style ≡ join fm x had style
same_join d fm x style true e s f =
    ap (λ b. join d.fm_raw x b d.style) e
    ∙ ap (λ b. join d.fm_raw x true b) s
    ∙ ap (λ b. join b x true style) (f refl)
same_join d fm x style false e s f = ap (λ b. join d.fm_raw x b d.style) e ∙ (unfold join in refl)

bytes_joined : (d : ParsedDoc) → bytes d ≡ join d.fm_raw d.body d.had_fm d.style
unfolding bytes join
bytes_joined d = ground arith

-- `Bytes` gives back the text from which a document was parsed.
pub bytes-parse : (content : Bytes) (d : ParsedDoc) → parse content ≡ parsed d → bytes d ≡ content
unfolding parse
bytes-parse content d h =
    let p = split content in
    let (fine, had, body, style, fm) = parse_parts-parsed content p p.error d h in
    bytes_joined d
    ∙ same_join d p.front_matter d.body p.style p.had had style fm
    ∙ ap (λ b. join p.front_matter b p.had p.style) body
    ∙ join-split content fine

with_body-none :
    (d : ParsedDoc) (x : Bytes) (err : Option EditError)
    → err ≡ none
    → with_body d (x, err) ≡ (join d.fm_raw x d.had_fm d.style, none)
unfolding with_body
with_body-none d x err e = rw e

-- `Split` found front matter and a body without an error.
parse_parts-Reads :
    (content : Bytes) (p : Parts) (err : Option SplitError)
    → err ≡ none
    → p.had ≡ true
    → (d : ParsedDoc) × (parse_parts content p err ≡ parsed d)
      × (d.had_fm ≡ true)
      × (d.fm_raw ≡ p.front_matter)
      × (d.body ≡ p.body)
unfolding parse_parts
parse_parts-Reads content p none e had = (_, refl, had, rw had, refl)
parse_parts-Reads content p (some err) e had = absurd (some-ne-none err e)

-- For a document with front matter and edits whose ranges lie in its body, any two of them apart:
-- `ApplyBodyEdits` succeeds, and what it returns parses again, to the same front matter and to the
-- body with each edited range replaced.
pub parse-apply_body_edits :
    (content : Bytes) (d : ParsedDoc) (edits : List Edit)
    → parse content ≡ parsed d
    → d.had_fm ≡ true
    → valid_edits (length d.body) edits ≡ true
    → let (out, err) = apply_body_edits d edits in
      (d' : ParsedDoc) × (err ≡ none)
      × (parse out ≡ parsed d')
      × (d'.had_fm ≡ true)
      × (d'.fm_raw ≡ d.fm_raw)
      × (d'.body ≡ edited d.body (sort_edits edits) (length d.body))
unfolding parse apply_body_edits
parse-apply_body_edits content d edits h had_fm valid =
    let p = split content in
    let (fine, had, body, style, fm) = parse_parts-parsed content p p.error d h in
    let p_had = sym had ∙ had_fm in
    let accepted = apply_edits-accepts d.body edits valid in
    let x = (apply_edits d.body edits).0 in
    let applied = with_body-none d x (apply_edits d.body edits).1 accepted in
    let joined = same_join d p.front_matter x p.style true had_fm style (λ t. fm p_had) in
    let (fm_is, body_is, q_had, _, q_fine) = split-join content x p_had in
    let out = join p.front_matter x true p.style in
    let (d', reads, had', fm', body') =
      parse_parts-Reads out (split out) (split out).error q_fine q_had in
    (
      d',
      ap (λ r. r.1) applied,
      ap parse (ap (λ r. r.0) applied ∙ joined) ∙ reads,
      had',
      fm' ∙ fm_is ∙ sym (fm p_had),
      body' ∙ body_is ∙ (apply_edits-edited d.body edits accepted).0,
    )
