-- ===== src/Patch/Fields.antt =====
-- Front matter and patches as functions from fields to values, and the overlay of one value on
-- another in each merge mode: what `Apply` is to do.
use Prim.Native.String.{String}
use docbuilder.Common.{Bool, false, not, ◌≡◌, Option, none, some, ◌==◌, if◌then◌else◌}
use docbuilder.Common.Text.{get, is_empty}
use docbuilder.Patch.{
  Value, a_string, a_bool, an_int, a_time, strings, FrontMatter, FrontMatterPatch, MergeMode,
  merge_deep, merge_replace, merge_set_if_missing, other_mode, ArrayMergeStrategy, no_items,
  is_zero, merge_string_array,
}

-- The fields of front matter that a patch may set
pub data Field : Type 0 where
  title : Field
  date : Field
  draft : Field
  description : Field
  tags : Field
  categories : Field
  keywords : Field
  repository : Field
  forge : Field
  section : Field
  edit_url : Field
  weight : Field
  layout : Field
  kind : Field

unfoldable pub value_at : Field → FrontMatter → Value
value_at title fm = a_string fm.title
value_at date fm = a_time fm.date
value_at draft fm = a_bool fm.draft
value_at description fm = a_string fm.description
value_at tags fm = strings fm.tags
value_at categories fm = strings fm.categories
value_at keywords fm = strings fm.keywords
value_at repository fm = a_string fm.repository
value_at forge fm = a_string fm.forge
value_at section fm = a_string fm.section
value_at edit_url fm = a_string fm.edit_url
value_at weight fm = an_int fm.weight
value_at layout fm = a_string fm.layout
value_at kind fm = a_string fm.kind

abbrev pub under {ℓ} : {A : Type ℓ} → (A → Value) → Option A → Option Value
under wrap none = none
under wrap (some v) = some (wrap v)

unfoldable pub given : Field → FrontMatterPatch → Option Value
given title p = under a_string p.title
given date p = under a_time p.date
given draft p = under a_bool p.draft
given description p = under a_string p.description
given tags p = under strings p.tags
given categories p = under strings p.categories
given keywords p = under strings p.keywords
given repository p = under a_string p.repository
given forge p = under a_string p.forge
given section p = under a_string p.section
given edit_url p = under a_string p.edit_url
given weight p = under an_int p.weight
given layout p = under a_string p.layout
given kind p = under a_string p.kind

abbrev pub is_zero_value : Value → Bool
is_zero_value (a_string s) = is_empty s
is_zero_value (a_bool b) = not b
is_zero_value (an_int n) = is_zero n
is_zero_value (a_time t) = t == 0
is_zero_value (strings xs) = no_items xs
is_zero_value _ = false

-- What a value becomes under a value given by the patch
abbrev pub merge_value : ArrayMergeStrategy → Value → Value → Value
merge_value s (strings new) (strings old) = strings (merge_string_array s old new)
merge_value s new old = new

abbrev pub overlay : MergeMode → ArrayMergeStrategy → Option Value → Value → Value
overlay m s none old = old
overlay merge_replace s (some new) old = new
overlay merge_set_if_missing s (some new) old = if is_zero_value old then new else old
overlay merge_deep s (some new) old = merge_value s new old
overlay other_mode s (some new) old = old

-- The first of two that is there
abbrev pub first {ℓ} : {A : Type ℓ} → Option A → Option A → Option A
first none o = o
first (some v) o = some v

abbrev pub overlay_custom : MergeMode → Option Value → Option Value → Option Value
overlay_custom merge_set_if_missing new old = first old new
overlay_custom _ new old = first new old

pub record OverlaysAs (m : MergeMode) (p : FrontMatterPatch) (fm result : FrontMatter)
    : Type 0 where
  pub fields : (f : Field) → value_at f result ≡ overlay m p.strategy (given f p) (value_at f fm)
  pub customs :
      (k : String) → get result.custom k ≡ overlay_custom m (get p.custom k) (get fm.custom k)

abbrev pub IsOverlay : FrontMatterPatch → FrontMatter → FrontMatter → Type 0
IsOverlay p fm result = OverlaysAs p.mode p fm result
