-- ===== src/Document.antt =====
-- internal/docmodel/{docmodel,edits,line_mapping}.go: a parsed Markdown document, its edits and its
-- lines. Copies of byte slices are the slices; the fields of the front matter are not modelled.
pub mod Edits
pub mod Offset
pub mod Lines
mod Tests
use docbuilder.Common.{
  ℕ, ◌+◌, Bool, true, false, not, Option, none, some, List, [], ◌∷◌, if◌then◌else◌,
}
use docbuilder.Common.Bytes.{Bytes, count}
use docbuilder.FrontMatter.{Style, SplitError, Parts, split, join}
use docbuilder.Markdown.{Edit, EditError, apply_edits}

-- ParsedDoc
pub record ParsedDoc : Type 0 where
  pub original : Bytes
  pub fm_raw : Bytes
  pub body : Bytes
  pub had_fm : Bool
  pub style : Style

pub data ParseResult : Type 0 where
  parsed : ParsedDoc → ParseResult
  refused : SplitError → ParseResult

pub parse_parts : Bytes → Parts → Option SplitError → ParseResult
parse_parts content p (some err) = refused err
parse_parts content p none = parsed (record {
  original = content;
  fm_raw = if p.had then p.front_matter else [];
  body = p.body;
  had_fm = p.had;
  style = p.style;
})

-- Parse
pub parse : Bytes → ParseResult
unfolding parse_parts
parse content = let p = split content in parse_parts content p p.error

-- FrontmatterRaw
pub frontmatter_raw : ParsedDoc → Bytes
frontmatter_raw d = if d.had_fm then d.fm_raw else []

-- Bytes
pub bytes : ParsedDoc → Bytes
bytes d = let fm = if not d.had_fm then [] else d.fm_raw in join fm d.body d.had_fm d.style

with_body : ParsedDoc → Bytes × Option EditError → Bytes × Option EditError
with_body d (updated, some err) = ([], some err)
with_body d (updated, none) = (join d.fm_raw updated d.had_fm d.style, none)

-- ApplyBodyEdits
pub apply_body_edits : ParsedDoc → List Edit → Bytes × Option EditError
unfolding with_body
apply_body_edits d edits = with_body d (apply_edits d.body edits)

-- LineOffset
pub line_offset : ParsedDoc → ℕ
line_offset d = if not d.had_fm then 0 else 2 + count b'\n' d.fm_raw
