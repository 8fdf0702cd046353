-- ===== src/Document/Offset.antt =====
-- A parsed document and its text: where the body begins.
use docbuilder.Common.{
  ℕ, ◌+◌, Bool, true, false, ◌≡◌, refl, sym, ap, ◌∙◌, inl, inr, Option, none, [], ◌∷◌, ◌++◌, arith,
  if◌then◌else◌,
}
use docbuilder.Common.Bytes.{Bytes, count}
use docbuilder.FrontMatter.{Style, SplitError, Parts, delimiter, split, join}
use docbuilder.FrontMatter.RoundTrip.{IsNewline, join_had, join-split}
use docbuilder.FrontMatter.Reparse.{split-IsNewline}
use docbuilder.Document.{ParsedDoc, parsed, parse_parts, parse, line_offset}
use mathlib.Core.List.{append_assoc}

-- What a document that is parsed has from `Split`.
pub parse_parts-parsed :
    (content : Bytes) (p : Parts) (err : Option SplitError) (d : ParsedDoc)
    → parse_parts content p err ≡ parsed d
    → (err ≡ none)
      × (d.had_fm ≡ p.had)
      × (d.body ≡ p.body)
      × (d.style ≡ p.style)
      × (p.had ≡ true → d.fm_raw ≡ p.front_matter)
unfolding parse_parts
parse_parts-parsed content p err d h = ground arith

count-append : (b : ℕ) (xs ys : Bytes) → count b (xs ++ ys) ≡ count b xs + count b ys
unfolding count
count-append b [] ys = omega arith
count-append b (x ∷ xs) ys = omega (arith, count-append b xs ys)

count-delimiter : (nl : Bytes) → IsNewline nl → count b'\n' (delimiter nl) ≡ 1
unfolding count
count-delimiter nl h = elim h [ inl e ↦ rw e | inr e ↦ rw e ]

-- The text in front of the body
abbrev head : Style → Bytes → Bytes
head style fm = delimiter style.newline ++ (fm ++ delimiter style.newline)

count-head :
    (style : Style) (fm : Bytes)
    → IsNewline style.newline
    → count b'\n' (head style fm) ≡ 2 + count b'\n' fm
count-head style fm h =
    let line = delimiter style.newline in
    omega (
      arith,
      count-append b'\n' line (fm ++ line),
      count-append b'\n' fm line,
      count-delimiter style.newline h,
    )

head-join :
    (style : Style) (fm body : Bytes)
    → IsNewline style.newline
    → join fm body true style ≡ head style fm ++ body
head-join style fm body h =
    let line = delimiter style.newline in
    join_had fm body style h
    ∙ ap (λ t. line ++ t) (sym (append_assoc fm line body))
    ∙ sym (append_assoc line (fm ++ line) body)

-- The parts of a document: its text in front of the body, which `line_offset` measures.
abbrev HasOffset : Bytes → Bytes → Bool → Bytes → Type 0
HasOffset content body had fm =
    (prefix : Bytes) × (content ≡ prefix ++ body)
    × (count b'\n' prefix ≡ (if had then 2 + count b'\n' fm else 0))

parts-HasOffset :
    (content : Bytes) (p : Parts)
    → IsNewline p.style.newline
    → join p.front_matter p.body p.had p.style ≡ content
    → (had : Bool) → p.had ≡ had
    → HasOffset content p.body had p.front_matter
parts-HasOffset content p nl joined true e = (
  head p.style p.front_matter,
  sym joined
      ∙ ap (λ had. join p.front_matter p.body had p.style) e
      ∙ head-join p.style p.front_matter p.body nl,
  count-head p.style p.front_matter nl,
)
parts-HasOffset content p nl joined false e = (
  [],
  sym joined ∙ ap (λ had. join p.front_matter p.body had p.style) e ∙ (unfold join in refl),
  (unfold count in refl),
)

offset_of :
    (d : ParsedDoc) (had : Bool) (fm : Bytes)
    → d.had_fm ≡ had
    → (had ≡ true → d.fm_raw ≡ fm)
    → (if had then 2 + count b'\n' fm else 0) ≡ line_offset d
unfolding line_offset
offset_of d true fm e same = rw (e, same refl)
offset_of d false fm e same = rw e

-- When `Parse` succeeds, the body is the end of the document, and `LineOffset` is the number of
-- newlines in front of it.
pub parse-line_offset :
    (content : Bytes) (d : ParsedDoc)
    → parse content ≡ parsed d
    → (prefix : Bytes) × (content ≡ prefix ++ d.body) × (count b'\n' prefix ≡ line_offset d)
unfolding parse
parse-line_offset content d h =
    let p = split content in
    let (fine, had, body, style, fm) = parse_parts-parsed content p p.error d h in
    let (prefix, whole, lines) =
      parts-HasOffset content p (split-IsNewline content) (join-split content fine) p.had refl in
    (
      prefix,
      whole ∙ ap (λ b. prefix ++ b) (sym body),
      lines ∙ offset_of d p.had p.front_matter had fm,
    )
