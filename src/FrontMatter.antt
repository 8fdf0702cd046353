-- ===== src/FrontMatter.antt =====
-- internal/frontmatter/frontmatter.go: a document is split into YAML front matter and body, and
-- joined again. A nil slice is the empty one.
pub mod RoundTrip
pub mod Reparse
mod Tests
use docbuilder.Common.{
  ℕ, suc, ◌+◌, Bool, true, false, not, ◌&&◌, Option, none, some, List, [], ◌∷◌, ◌++◌, if◌then◌else◌,
  ◌==◌, length, take, drop,
}
use docbuilder.Common.Bytes.{Bytes, codes, has_prefix, index}

pub record Style : Type 0 where
  pub newline : Bytes
  pub has_trailing_newline : Bool

pub data SplitError : Type 0 where
  missing_closing_delimiter : SplitError

-- The five results of `Split`.
pub record Parts : Type 0 where
  pub front_matter : Bytes
  pub body : Bytes
  pub had : Bool
  pub style : Style
  pub error : Option SplitError

abbrev pub lf : Bytes
lf = b'\n' ∷ []

abbrev pub crlf : Bytes
crlf = 13 ∷ b'\n' ∷ []

-- The loop of `detectStyle`, which stops before the last byte.
pub detect_newline : Bytes → Bytes
detect_newline [] = lf
detect_newline (a ∷ []) = lf
detect_newline (a ∷ b ∷ rest) =
    if a == 13 && b == b'\n' then crlf else if a == b'\n' then lf else detect_newline (b ∷ rest)

ends_with_newline : Bytes → Bool
ends_with_newline [] = false
ends_with_newline (a ∷ []) = a == b'\n'
ends_with_newline (a ∷ b ∷ rest) = ends_with_newline (b ∷ rest)

-- detectStyle
pub detect_style : Bytes → Style
unfolding detect_newline ends_with_newline
detect_style content = record {
  newline = detect_newline content;
  has_trailing_newline = ends_with_newline content;
}

-- "---" and a newline: both the opening and the closing line.
abbrev pub delimiter : Bytes → Bytes
delimiter nl = codes "---" ++ nl

-- A newline before the closing line.
abbrev pub close_seq : Bytes → Bytes
close_seq nl = nl ++ delimiter nl

no_front_matter : Bytes → Style → Parts
no_front_matter content style = record {
  front_matter = [];
  body = content;
  had = false;
  style = style;
  error = none;
}

found_front_matter : Bytes → Bytes → Style → Parts
found_front_matter front_matter body style = record {
  front_matter = front_matter;
  body = body;
  had = true;
  style = style;
  error = none;
}

failed : Style → Parts
failed style = record {
  front_matter = [];
  body = [];
  had = false;
  style = style;
  error = some missing_closing_delimiter;
}

-- The search for the closing line in the text behind the opening one.
close_at : Style → Bytes → Option ℕ → Parts
unfolding found_front_matter failed
close_at style text none = failed style
close_at style text (some i) =
    let nl = style.newline in
    found_front_matter (take (i + length nl) text) (drop (i + length (close_seq nl)) text) style

-- `Split` behind the detection of the style.
split_with : Style → Bytes → Parts
unfolding no_front_matter found_front_matter close_at
split_with style content =
    let line = delimiter style.newline in
    let text = drop (length line) content in
    if not (has_prefix line content)
    then no_front_matter content style
    else if has_prefix line text
    then found_front_matter [] (drop (length line) text) style
    else close_at style text (index (close_seq style.newline) text)

-- Split
unfoldable pub split : Bytes → Parts
unfolding split_with detect_style
split content = split_with (detect_style content) content

-- Join
unfoldable pub join : Bytes → Bytes → Bool → Style → Bytes
join front_matter body had style =
    if not had
    then body
    else let line = delimiter (elim style.newline [ [] ↦ lf | ◌∷◌ c rest ↦ c ∷ rest ]) in
      line ++ (front_matter ++ (line ++ body))
