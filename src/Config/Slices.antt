-- ===== src/Config/Slices.antt =====
-- internal/config/normalize_helpers.go: lists of strings made canonical, and the warnings of the pass.
pub mod Sorting
pub mod Canonical
use Prim.Native.String.{String}
use docbuilder.Common.{
  ℕ, Bool, true, false, not, ◌&&◌, ◌||◌, List, [], ◌∷◌, ◌++◌, if◌then◌else◌, length,
}
use docbuilder.Common.Text.{is_empty, str_eq}
use docbuilder.Common.Order.{text_lt}
use docbuilder.Config.{Library}

-- The warnings of a NormalizationResult, with the values that their texts are made of
pub data Warning : Type 0 where
  warn_changed : (field from to : String) → Warning
  warn_unknown : (field value default : String) → Warning
  warn_invalid_strategy : String → Warning
  warn_list : (label : String) (before after : ℕ) → Warning
  warn_same_directory : (workspace output : String) → Warning

-- A value and the warnings so far
abbrev pub Warned {ℓ} : Type ℓ → Type ℓ
Warned A = A × List Warning

unfoldable pub warned_if : Bool → Warning → List Warning → List Warning
warned_if b w ws = if b then ws ++ (w ∷ []) else ws

-- trimStringSlice
unfoldable pub trim_string_slice : Library → List String → List String
trim_string_slice l [] = []
trim_string_slice l (p ∷ ps) =
    let trimmed = l.trim_space p in
    let rest = trim_string_slice l ps in if is_empty trimmed then rest else trimmed ∷ rest

-- The keys of `seen`
unfoldable pub is_seen : List String → String → Bool
is_seen [] t = false
is_seen (x ∷ seen) t = str_eq x t || is_seen seen t

-- The first loop of normalizeStringSlice: what it has seen, `out`, and `changed`.
pub record Trimmed : Type 0 where
  pub seen : List String
  pub out : List String
  pub changed : Bool

unfoldable pub trim_step : Library → String → Trimmed → Trimmed
trim_step l v s =
    let t = l.trim_space v in
    if is_empty t || is_seen s.seen t then record s { changed = true } else record {
      seen = t ∷ s.seen;
      out = s.out ++ (t ∷ []);
      changed = s.changed || not (str_eq t v);
    }

unfoldable pub trim_loop : Library → List String → Trimmed → Trimmed
trim_loop l [] s = s
trim_loop l (v ∷ vs) s = trim_loop l vs (trim_step l v s)

-- The inner loop of the sort: x moves down from behind a sorted part, which is given last item first.
unfoldable pub move_down : String → List String → List String
move_down x [] = x ∷ []
move_down x (y ∷ ys) = let moved = move_down x ys in if text_lt x y then y ∷ moved else x ∷ y ∷ ys

-- The outer loop, over the items behind the sorted part
unfoldable pub sort_loop : List String → List String → List String
sort_loop sorted [] = sorted
sort_loop sorted (x ∷ xs) = sort_loop (move_down x sorted) xs

unfoldable pub reversed : List String → List String → List String
reversed [] ys = ys
reversed (x ∷ xs) ys = reversed xs (x ∷ ys)

-- normalizeStringSlice
unfoldable pub normalize_string_slice :
    Library → String → List String → List Warning → Warned (List String)
unfolding warned_if
normalize_string_slice l label [] ws = ([], ws)
normalize_string_slice l label (v ∷ vs) ws =
    let given = v ∷ vs in
    let trimmed = trim_loop l given (record { seen = []; out = []; changed = false }) in
    (
      reversed (sort_loop [] trimmed.out) [],
      warned_if trimmed.changed (warn_list label (length given) (length trimmed.out)) ws,
    )
