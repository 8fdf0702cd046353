-- ===== src/FrontMatter/Reparse.antt =====
-- internal/frontmatter/frontmatter.go: front matter is read back behind any body.
use mathlib.Core.List.{append_assoc}
use docbuilder.Common.{
  ℕ, ◌+◌, ◌≡◌, inl, inr, refl, sym, ap, subst, ◌∙◌, true, false, Option, none, some, [], ◌∷◌, ◌++◌,
  Bool-cases, if◌then◌else◌, length, take, drop, take-append_length, drop-append_length, drop-add,
}
use docbuilder.Common.Bytes.{
  Bytes, has_prefix, index, has_prefix-append_self, has_prefix-middle, index-replace_rest,
  length-take-index,
}
use docbuilder.FrontMatter.{
  Style, Parts, detect_style, delimiter, close_seq, found_front_matter, close_at, split_with, split,
  join,
}
use docbuilder.FrontMatter.RoundTrip.{
  IsNewline, detect_newline-IsNewline, detect_newline-delimiter, join_had, take_front_matter,
  rejoin_text,
}

-- How a document that begins with the delimiter is read.
split_with_opened :
    (style : Style) (text : Bytes)
    → split_with style (delimiter style.newline ++ text) ≡ (
        if has_prefix (delimiter style.newline) text
        then found_front_matter [] (drop (length (delimiter style.newline)) text) style
        else close_at style text (index (close_seq style.newline) text))
unfolding split_with
split_with_opened style text =
    let line = delimiter style.newline in
    rw (has_prefix-append_self line text) (rw (drop-append_length line text) refl)

-- The results that are the same for the same text and the same newline.
record IsParts (p : Parts) (front_matter body nl : Bytes) : Type 0 where
  fm_is : p.front_matter ≡ front_matter
  body_is : p.body ≡ body
  had_is : p.had ≡ true
  newline_is : p.style.newline ≡ nl
  no_error : p.error ≡ none

module _ (style : Style) (body : Bytes) where
  abbrev nl : Bytes
  nl = style.newline

  abbrev line : Bytes
  line = delimiter nl

  split_with_empty : IsParts (split_with style (line ++ (line ++ body))) [] body nl
  split_with_empty = rw (split_with_opened style (line ++ body)) (
      rw (has_prefix-append_self line body, drop-append_length line body)
        (unfold found_front_matter in
          record {
            fm_is = refl;
            body_is = refl;
            had_is = refl;
            newline_is = refl;
            no_error = refl;
          }))

  module _ (text : Bytes) (i : ℕ) (open_text : has_prefix line text ≡ false)
      (found : index (close_seq nl) text ≡ some i) where
    abbrev front : Bytes
    front = take (i + length nl) text

    abbrev edited : Bytes
    edited = front ++ (line ++ body)

    edited_parts : edited ≡ take i text ++ (close_seq nl ++ body)
    edited_parts =
        ap (λ t. t ++ (line ++ body)) (take_front_matter nl text i found)
        ∙ append_assoc (take i text) nl (line ++ body)
        ∙ ap (λ t. take i text ++ t) (sym (append_assoc nl line body))

    has_prefix-edited : has_prefix line edited ≡ false
    has_prefix-edited =
        has_prefix-middle line front body (drop (i + length (close_seq nl)) text)
        ∙ ap (has_prefix line) (rejoin_text nl text i found)
        ∙ open_text

    index-edited : index (close_seq nl) edited ≡ some i
    index-edited =
        ap (index (close_seq nl)) edited_parts ∙ index-replace_rest (close_seq nl) text body i found

    take-edited : take i edited ≡ take i text
    take-edited =
        ap (take i) edited_parts
        ∙ ap (λ n. take n (take i text ++ (close_seq nl ++ body)))
            (sym (length-take-index (close_seq nl) text i found))
        ∙ take-append_length (take i text) _

    drop-edited : drop i edited ≡ close_seq nl ++ body
    drop-edited =
        ap (drop i) edited_parts
        ∙ ap (λ n. drop n (take i text ++ (close_seq nl ++ body)))
            (sym (length-take-index (close_seq nl) text i found))
        ∙ drop-append_length (take i text) _

    close_at-edited : IsParts (close_at style edited (some i)) front body nl
    unfolding close_at
    close_at-edited = record {
      fm_is =
          take_front_matter nl edited i index-edited
          ∙ ap (λ t. t ++ nl) take-edited
          ∙ sym (take_front_matter nl text i found);
      body_is =
          drop-add i (length (close_seq nl)) edited
          ∙ ap (drop (length (close_seq nl))) drop-edited
          ∙ drop-append_length (close_seq nl) body;
      had_is = refl;
      newline_is = refl;
      no_error = refl;
    }

    split_with_closed : IsParts (split_with style (line ++ edited)) front body nl
    split_with_closed =
        rw (split_with_opened style edited) (rw (has_prefix-edited, index-edited) close_at-edited)

-- The same where the newline of the style is known by an equation.
module _ (body : Bytes) (style : Style) {nl : Bytes} (e : style.newline ≡ nl) where
  reparse_empty : IsParts (split_with style (delimiter nl ++ (delimiter nl ++ body))) [] body nl
  reparse_empty =
      subst (λ n. IsParts (split_with style (delimiter n ++ (delimiter n ++ body))) [] body n) e
        (split_with_empty style body)

  reparse_closed :
      (text : Bytes) (i : ℕ)
      → has_prefix (delimiter nl) text ≡ false
      → index (close_seq nl) text ≡ some i
      → IsParts
          (split_with style (delimiter nl ++ (take (i + length nl) text ++ (delimiter nl ++ body))))
          (take (i + length nl) text)
          body
          nl
  reparse_closed =
      subst
        (λ n.
          (text : Bytes) (i : ℕ)
          → has_prefix (delimiter n) text ≡ false
          → index (close_seq n) text ≡ some i
          → IsParts
              (split_with style
                (delimiter n ++ (take (i + length n) text ++ (delimiter n ++ body))))
              (take (i + length n) text) body n)
        e (split_with_closed style body)

-- A document with front matter has it in one of two ways.
data HasFrontMatter (style : Style) (content : Bytes) (p : Parts) : Type 0 where
  at_once : p.front_matter ≡ [] → HasFrontMatter style content p
  closed_at :
      (text : Bytes) (i : ℕ)
      → has_prefix (delimiter style.newline) text ≡ false
      → index (close_seq style.newline) text ≡ some i
      → p.front_matter ≡ take (i + length style.newline) text
      → HasFrontMatter style content p

close_at-HasFrontMatter :
    (style : Style) (content text : Bytes) (o : Option ℕ)
    → has_prefix (delimiter style.newline) text ≡ false
    → index (close_seq style.newline) text ≡ o
    → (close_at style text o).had ≡ true
    → HasFrontMatter style content (close_at style text o)
unfolding close_at
close_at-HasFrontMatter style content text none open_text found had = cc
close_at-HasFrontMatter style content text (some i) open_text found had =
    closed_at text i open_text found refl

split_with-HasFrontMatter :
    (style : Style) (content : Bytes)
    → (split_with style content).had ≡ true
    → HasFrontMatter style content (split_with style content)
unfolding split_with
split_with-HasFrontMatter style content =
    let line = delimiter style.newline in
    let text = drop (length line) content in
    elim (Bool-cases (has_prefix line content)) [
      | inr plain ↦ rw plain (λ had. cc)
      | inl opened ↦ elim (Bool-cases (has_prefix line text)) [
        | inl closed ↦ rw (opened, closed) (λ had. at_once refl)
        | inr open_text ↦
            rw (opened, open_text)
              (close_at-HasFrontMatter style content text (index (close_seq style.newline) text)
                open_text refl)
      ]
    ]

close_at-style :
    (style : Style) (text : Bytes) (o : Option ℕ) → (close_at style text o).style ≡ style
unfolding close_at
close_at-style style text none = refl
close_at-style style text (some i) = refl

split_with-style : (style : Style) (content : Bytes) → (split_with style content).style ≡ style
unfolding split_with
split_with-style style content =
    let line = delimiter style.newline in
    let text = drop (length line) content in
    elim (Bool-cases (has_prefix line content)) [
      | inr plain ↦ rw plain
      | inl opened ↦ elim (Bool-cases (has_prefix line text)) [
        | inl closed ↦ rw (opened, closed)
        | inr open_text ↦
            rw (opened, open_text)
              (close_at-style style text (index (close_seq style.newline) text))
      ]
    ]

-- The document that `Join` makes of these parts.
abbrev document : Bytes → Bytes → Bytes → Bytes
document newline front_matter body =
    delimiter newline ++ (front_matter ++ (delimiter newline ++ body))

-- The text behind the opening line is not empty.
not_empty :
    (newline front_matter body : Bytes)
    → (c : ℕ) × (rest : Bytes) × (front_matter ++ (delimiter newline ++ body) ≡ c ∷ rest)
not_empty newline [] body = (_, _, refl)
not_empty newline (c ∷ rest) body = (_, _, refl)

document_newline :
    (newline front_matter body : Bytes)
    → IsNewline newline
    → (detect_style (document newline front_matter body)).newline ≡ newline
unfolding detect_style
document_newline newline front_matter body h =
    let (c, rest, e) = not_empty newline front_matter body in
    rw e (detect_newline-delimiter newline c rest h)

module _ (style : Style) (content body : Bytes) (h : IsNewline style.newline) where
  abbrev Reparses : Bytes → Type 0
  Reparses f =
      let again = document style.newline f body in
      IsParts (split_with (detect_style again) again) f body style.newline

  document-Reparses : (p : Parts) → HasFrontMatter style content p → Reparses p.front_matter
  document-Reparses p (at_once e) =
      subst Reparses (sym e) (reparse_empty body _ (document_newline style.newline [] body h))
  document-Reparses p (closed_at text i open_text found e) =
      let f = take (i + length style.newline) text in
      subst Reparses (sym e)
        (reparse_closed body _ (document_newline style.newline f body h) text i open_text found)

  split_with-IsParts :
      (split_with style content).had ≡ true
      → let f = (split_with style content).front_matter in
        IsParts (split (join f body true style)) f body style.newline
  unfolding split
  split_with-IsParts had =
      let p = split_with style content in
      rw (join_had p.front_matter body style h)
        (document-Reparses p (split_with-HasFrontMatter style content had))

-- Front matter that `Split` found is found again, with any other body behind it: splitting the
-- joined document gives the same front matter, that body and the same newline, and no error.
pub split-join :
    (content body : Bytes)
    → (split content).had ≡ true
    → let p = split content in
      let q = split (join p.front_matter body true p.style) in
      (q.front_matter ≡ p.front_matter)
      × (q.body ≡ body)
      × (q.had ≡ true)
      × (q.style.newline ≡ p.style.newline)
      × (q.error ≡ none)
unfolding split
split-join content body had =
    let style = detect_style content in
    let is_nl : IsNewline style.newline = unfold detect_style in detect_newline-IsNewline content in
    let q = split_with-IsParts style content body is_nl had in
    rw (split_with-style style content) (q.fm_is, q.body_is, q.had_is, q.newline_is, q.no_error)

-- The newline that `Split` reports is one of the two.
pub split-IsNewline : (content : Bytes) → IsNewline (split content).style.newline
unfolding split
split-IsNewline content =
    rw (split_with-style (detect_style content) content)
      (unfold detect_style in detect_newline-IsNewline content)
