-- ===== src/Document/Lines.antt =====
-- internal/docmodel/line_mapping.go: the search for the next line of the body that holds a text.
pub mod Search
pub mod Next
mod Tests
use docbuilder.Common.{
  ℕ, zero, suc, ◌+◌, ◌-◌, ◌%◌, Bool, true, false, not, ◌&&◌, ◌||◌, Option, none, some, List, [],
  ◌∷◌, ◌++◌, if◌then◌else◌, ◌==◌, ltb, leb, length, take, drop,
}
use docbuilder.Common.Int.{ℤ, is_pos, pos_part}
use docbuilder.Common.Bytes.{Bytes, codes, has_prefix, index, count}

-- strings.Split(body, "\n"), with the line under way
unfoldable pub split_lines : Bytes → Bytes → List Bytes
split_lines line [] = line ∷ []
split_lines line (c ∷ s) =
    let longer = split_lines (line ++ c ∷ []) s in
    if c == b'\n' then line ∷ split_lines [] s else longer

-- A fence that opened a code block
pub data Fence : Type 0 where
  backticks tildes : Fence

same_fence : Fence → Fence → Bool
same_fence backticks backticks = true
same_fence tildes tildes = true
same_fence _ _ = false

-- toggleFencedBlock; `none` is that no block is open.
pub toggle_fenced_block : Option Fence → Fence → Option Fence
unfolding same_fence
toggle_fenced_block none fence = some fence
toggle_fenced_block (some active) fence = if same_fence active fence then none else some active

is_open : Option Fence → Bool
is_open none = false
is_open (some f) = true

-- Behind byte 226: U+2000 to U+200A, U+2028, U+2029, U+202F and U+205F
abbrev pub is_wide_space : Bytes → Bool
is_wide_space [] = false
is_wide_space (a ∷ []) = false
is_wide_space (a ∷ b ∷ s) =
    a == 128 && (leb 128 b && leb b 138 || b == 168 || b == 169 || b == 175) || a == 129 && b == 159

-- The number of bytes of a white space character, as unicode.IsSpace has it, that text begins with
unfoldable pub space_length : Bytes → ℕ
space_length [] = 0
space_length (c ∷ s) =
    if c == 32 || (leb 9 c && leb c 13)
    then 1
    else if has_prefix (194 ∷ 133 ∷ []) (c ∷ s) || has_prefix (194 ∷ 160 ∷ []) (c ∷ s)
    then 2
    else if c == 226 && is_wide_space s
        || has_prefix (225 ∷ 154 ∷ 128 ∷ []) (c ∷ s)
        || has_prefix (227 ∷ 128 ∷ 128 ∷ []) (c ∷ s)
    then 3
    else 0

-- strings.TrimSpace, at the front, on at most n characters. What it cuts at the end does not matter
-- to the fences that are looked for at the front.
trim_space : ℕ → Bytes → Bytes
unfolding space_length
trim_space zero s = s
trim_space (suc n) s =
    let more = trim_space n (drop (space_length s) s) in if space_length s == 0 then s else more

-- The loop of `computeSkippableLines`
pub compute_skippable_lines : Option Fence → List Bytes → List Bool
unfolding toggle_fenced_block is_open trim_space
compute_skippable_lines open_fence [] = []
compute_skippable_lines open_fence (line ∷ lines) =
    let trimmed = trim_space (length line) line in
    let is_ticks = has_prefix (codes "```") trimmed in
    let is_tildes = has_prefix (codes "~~~") trimmed in
    let after =
      if is_ticks
      then toggle_fenced_block open_fence backticks
      else if is_tildes
      then toggle_fenced_block open_fence tildes
      else open_fence in
    let indented = has_prefix (codes "    ") line || has_prefix (b'\t' ∷ []) line in
    (is_ticks || is_tildes || is_open open_fence || indented) ∷ compute_skippable_lines after lines

-- isInsideInlineCode
unfoldable pub is_inside_inline_code : Bytes → ℕ → Bool
is_inside_inline_code line at = count b'`' (take at line) % 2 == 1

-- The loop over the occurrences of the text in a line, `none` when the fuel is used up
pub find_outside : ℕ → Bytes → Bytes → ℕ → Option Bool
find_outside zero target line from = none
find_outside (suc fuel) target line from = elim (index target (drop from line)) [
  | none ↦ some false
  | some k ↦
      let again = find_outside fuel target line (from + k + 1) in
      if not (is_inside_inline_code line (from + k))
      then some true
      else if leb (length line) (from + k + 1)
      then some false
      else again
]

is_found : Option Bool → Bool
is_found none = false
is_found (some b) = b

-- Whether the inner loop of `FindNextLineContaining` returns
has_outside : Bytes → Bytes → Bool
unfolding is_found
has_outside target line = is_found (find_outside (suc (length line)) target line 0)

-- The loop over the lines, from line number i + 1 on; 1 is that there is no such line.
-- There is a flag for every line.
find_line : Bytes → ℕ → List Bytes → List Bool → ℕ
unfolding has_outside
find_line target i [] flags = 1
find_line target i (line ∷ lines) [] = 1
find_line target i (line ∷ lines) (skip ∷ flags) =
    let later = find_line target (suc i) lines flags in
    if not skip && has_outside target line then suc i else later

-- if startLine < 1 { ... }; if startLine > len(lines) { ... }
abbrev pub clamp : ℤ → ℕ → ℕ
clamp start n =
    let first = if is_pos start then pos_part start else 1 in if ltb n first then n else first

abbrev is_nil : Bytes → Bool
is_nil [] = true
is_nil (c ∷ s) = false

-- FindNextLineContaining
pub find_next_line_containing : Bytes → ℤ → Bytes → ℕ
unfolding split_lines compute_skippable_lines find_line
find_next_line_containing target start body =
    let lines = split_lines [] body in
    let first = clamp start (length lines) - 1 in
    if is_nil body || is_nil target
    then 1
    else find_line target first (drop first lines) (drop first (compute_skippable_lines none lines))
