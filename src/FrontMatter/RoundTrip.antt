-- ===== src/FrontMatter/RoundTrip.antt =====
-- internal/frontmatter/frontmatter.go: what `Split` takes apart, `Join` puts together.
use mathlib.Core.List.{append_assoc}
use docbuilder.Common.{
  ℕ, ◌+◌, ◌≡◌, ◌⊎◌, inl, inr, refl, sym, ap, ◌∙◌, true, Option, none, some, [], ◌∷◌, ◌++◌, arith,
  Bool-cases, length, take, drop, take-add, take-append_length,
}
use docbuilder.Common.Bytes.{Bytes, has_prefix, index, has_prefix_split, index_split, drop-index}
use docbuilder.FrontMatter.{
  Style, lf, crlf, detect_newline, detect_style, delimiter, close_seq, close_at, split, join,
}

-- The two newlines that `detectStyle` tells apart.
abbrev pub IsNewline : Bytes → Type 0
IsNewline nl = (nl ≡ lf) ⊎ (nl ≡ crlf)

pub detect_newline-IsNewline : (content : Bytes) → IsNewline (detect_newline content)
unfolding detect_newline
detect_newline-IsNewline [] = inl refl
detect_newline-IsNewline (a ∷ []) = inl refl
detect_newline-IsNewline (a ∷ b ∷ rest) = ground (arith, detect_newline-IsNewline (b ∷ rest))

-- A document that begins with a delimiter and goes on has the delimiter's newline.
pub detect_newline-delimiter :
    (nl : Bytes) (c : ℕ) (rest : Bytes)
    → IsNewline nl
    → detect_newline (delimiter nl ++ c ∷ rest) ≡ nl
unfolding detect_newline
detect_newline-delimiter nl c rest h = elim h [ inl e ↦ rw e | inr e ↦ rw e ]

pub join_had :
    (front_matter body : Bytes) (style : Style)
    → IsNewline style.newline
    → join front_matter body true style
      ≡ delimiter style.newline ++ (front_matter ++ (delimiter style.newline ++ body))
unfolding join
join_had front_matter body style h = elim h [ inl e ↦ rw e | inr e ↦ rw e ]

-- The front matter that ends before a closing line at `i`.
pub take_front_matter :
    (nl text : Bytes) (i : ℕ)
    → index (close_seq nl) text ≡ some i
    → take (i + length nl) text ≡ take i text ++ nl
take_front_matter nl text i h =
    take-add i (length nl) text
    ∙ ap (λ t. take i text ++ take (length nl) t)
        (drop-index (close_seq nl) text i h ∙ append_assoc nl (delimiter nl) _)
    ∙ ap (λ t. take i text ++ t) (take-append_length nl _)

-- The text is its front matter, the closing line, and the rest.
pub rejoin_text :
    (nl text : Bytes) (i : ℕ)
    → index (close_seq nl) text ≡ some i
    → take (i + length nl) text ++ (delimiter nl ++ drop (i + length (close_seq nl)) text) ≡ text
rejoin_text nl text i h =
    let rest = drop (i + length (close_seq nl)) text in
    ap (λ t. t ++ (delimiter nl ++ rest)) (take_front_matter nl text i h)
    ∙ append_assoc (take i text) nl (delimiter nl ++ rest)
    ∙ ap (λ t. take i text ++ t) (sym (append_assoc nl (delimiter nl) rest))
    ∙ sym (index_split (close_seq nl) text i h)

close_at-join :
    (style : Style) (text : Bytes) (i : ℕ)
    → IsNewline style.newline
    → index (close_seq style.newline) text ≡ some i
    → let p = close_at style text (some i) in
      join p.front_matter p.body true style ≡ delimiter style.newline ++ text
unfolding close_at
close_at-join style text i h found =
    join_had _ _ style h
    ∙ ap (λ t. delimiter style.newline ++ t) (rejoin_text style.newline text i found)

-- The case in which a closing line is looked for.
close_at_rejoins :
    (style : Style) (text : Bytes) (o : Option ℕ)
    → IsNewline style.newline
    → index (close_seq style.newline) text ≡ o
    → let p = close_at style text o in
      p.error ≡ none → join p.front_matter p.body p.had p.style ≡ delimiter style.newline ++ text
close_at_rejoins style text none h found fine = unfold close_at in cc
close_at_rejoins style text (some i) h found fine =
    unfold close_at in close_at-join style text i h found

-- If `Split` reports no error, `Join` on its results gives back the document, byte for byte.
pub join-split :
    (content : Bytes)
    → (split content).error ≡ none
    → let p = split content in join p.front_matter p.body p.had p.style ≡ content
unfolding split
join-split content =
    let style = detect_style content in
    let nl = style.newline in
    let line = delimiter nl in
    let text = drop (length line) content in
    let is_nl : IsNewline nl = unfold detect_style in detect_newline-IsNewline content in
    elim (Bool-cases (has_prefix line content)) [
      | inr plain ↦ rw plain (λ fine. unfold join in refl)
      | inl opened ↦
          let whole = sym (has_prefix_split line content opened) in
          elim (Bool-cases (has_prefix line text)) [
            | inl closed ↦
                rw (opened, closed)
                  (λ fine.
                    join_had [] (drop (length line) text) style is_nl
                    ∙ ap (λ t. line ++ t) (sym (has_prefix_split line text closed))
                    ∙ whole)
            | inr open_text ↦
                rw (opened, open_text)
                  (λ fine.
                    close_at_rejoins style text (index (close_seq nl) text) is_nl refl fine ∙ whole)
          ]
    ]
