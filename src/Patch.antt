-- ===== src/Patch.antt =====
-- internal/hugo/models/{frontmatter,patch}.go: typed front matter, and patches of it. A time is a
-- number that is 0 for the zero time; its text is read and written by the layouts given. A map
-- with unique keys is an association list, and a nil map the empty list.
pub mod Fields
pub mod Overlay
pub mod Union
pub mod Twice
pub mod Build
pub mod Maps
mod Tests
use Prim.Native.String.{String}
use docbuilder.Common.{
  ℕ, Bool, true, false, not, ◌&&◌, ◌||◌, Option, none, some, List, [], ◌∷◌, ◌++◌, if◌then◌else◌,
  ◌==◌,
}
use docbuilder.Common.Int.{ℤ, pos}
use docbuilder.Common.Text.{StringMap, get, put, is_empty, str_eq}

-- The dynamic types that the code tells apart in an `any`; `other` is a value of any further type.
mutual
  pub data Value : Type 0 where
    a_string : String → Value
    a_bool : Bool → Value
    an_int : ℤ → Value
    a_time : ℕ → Value
    strings : List String → Value
    anys : Values → Value
    other : String → Value

  pub data Values : Type 0 where
    no_value : Values
    and_value : Value → Values → Values

-- FrontMatter
pub record FrontMatter : Type 0 where
  pub title : String
  pub date : ℕ
  pub draft : Bool
  pub description : String
  pub tags : List String
  pub categories : List String
  pub keywords : List String
  pub repository : String
  pub forge : String
  pub section : String
  pub edit_url : String
  pub weight : ℤ
  pub layout : String
  pub kind : String
  pub custom : StringMap Value

-- MergeMode; an integer without a name is `other_mode`.
pub data MergeMode : Type 0 where
  merge_deep : MergeMode
  merge_replace : MergeMode
  merge_set_if_missing : MergeMode
  other_mode : MergeMode

-- ArrayMergeStrategy
pub data ArrayMergeStrategy : Type 0 where
  append_items : ArrayMergeStrategy
  union_items : ArrayMergeStrategy
  replace_items : ArrayMergeStrategy
  other_strategy : ArrayMergeStrategy

-- FrontMatterPatch
pub record FrontMatterPatch : Type 0 where
  pub title : Option String
  pub date : Option ℕ
  pub draft : Option Bool
  pub description : Option String
  pub tags : Option (List String)
  pub categories : Option (List String)
  pub keywords : Option (List String)
  pub repository : Option String
  pub forge : Option String
  pub section : Option String
  pub edit_url : Option String
  pub weight : Option ℤ
  pub layout : Option String
  pub kind : Option String
  pub custom : StringMap Value
  pub mode : MergeMode
  pub strategy : ArrayMergeStrategy

-- NewFrontMatterPatch
unfoldable pub new_front_matter_patch : FrontMatterPatch
new_front_matter_patch = record {
  title = none;
  date = none;
  draft = none;
  description = none;
  tags = none;
  categories = none;
  keywords = none;
  repository = none;
  forge = none;
  section = none;
  edit_url = none;
  weight = none;
  layout = none;
  kind = none;
  custom = [];
  mode = merge_deep;
  strategy = union_items;
}

-- The tests for a zero value
abbrev pub no_items : List String → Bool
no_items [] = true
no_items (x ∷ xs) = false

abbrev pub is_zero : ℤ → Bool
is_zero (pos n) = n == 0
is_zero _ = false

-- maps.Copy(dst, src)
unfoldable pub copy : StringMap Value → StringMap Value → StringMap Value
copy dst [] = dst
copy dst (e ∷ src) = put (copy dst src) e.0 e.1

-- slices.Contains, and the marks of a set of strings
unfoldable pub contains : List String → String → Bool
contains [] x = false
contains (y ∷ ys) x = str_eq y x || contains ys x

-- Clone: the slices and the map are copied, their values are not.
unfoldable pub clone : FrontMatter → FrontMatter
clone fm = record fm { custom = copy [] fm.custom }

-- if p.X != nil { fm.X = *p.X }
abbrev pub replaced {ℓ} : {A : Type ℓ} → Option A → A → A
replaced none old = old
replaced (some v) old = v

-- if p.X != nil && empty(fm.X) { fm.X = *p.X }
abbrev pub filled {ℓ} : {A : Type ℓ} → (A → Bool) → Option A → A → A
filled empty none old = old
filled empty (some v) old = if empty old then v else old

-- for key, value := range p.Custom { fm.SetCustom(key, value) }, the head of the list last
unfoldable pub set_customs : StringMap Value → StringMap Value → StringMap Value
set_customs m [] = m
set_customs m (e ∷ src) = put (set_customs m src) e.0 e.1

-- applyCustomFieldsIfMissing
unfoldable pub is_present : Option Value → Bool
is_present none = false
is_present (some v) = true

unfoldable pub fill_customs : StringMap Value → StringMap Value → StringMap Value
fill_customs m [] = m
fill_customs m (e ∷ src) = fill_customs (if is_present (get m e.0) then m else put m e.0 e.1) src

-- The simple fields of `applyReplace` and `applyDeep`
unfoldable pub replace_simple : FrontMatterPatch → FrontMatter → FrontMatter
replace_simple p fm = record fm {
  title = replaced p.title fm.title;
  date = replaced p.date fm.date;
  draft = replaced p.draft fm.draft;
  description = replaced p.description fm.description;
  repository = replaced p.repository fm.repository;
  forge = replaced p.forge fm.forge;
  section = replaced p.section fm.section;
  edit_url = replaced p.edit_url fm.edit_url;
  weight = replaced p.weight fm.weight;
  layout = replaced p.layout fm.layout;
  kind = replaced p.kind fm.kind;
}

unfoldable pub apply_replace : FrontMatterPatch → FrontMatter → FrontMatter
apply_replace p fm = record (replace_simple p fm) {
  tags = replaced p.tags fm.tags;
  categories = replaced p.categories fm.categories;
  keywords = replaced p.keywords fm.keywords;
  custom = set_customs fm.custom p.custom;
}

-- applySimpleFieldsIfMissing
unfoldable pub fill_simple : FrontMatterPatch → FrontMatter → FrontMatter
fill_simple p fm = record fm {
  title = filled is_empty p.title fm.title;
  date = filled (λ t. t == 0) p.date fm.date;
  draft = filled not p.draft fm.draft;
  description = filled is_empty p.description fm.description;
  repository = filled is_empty p.repository fm.repository;
  forge = filled is_empty p.forge fm.forge;
  section = filled is_empty p.section fm.section;
  edit_url = filled is_empty p.edit_url fm.edit_url;
  weight = filled is_zero p.weight fm.weight;
  layout = filled is_empty p.layout fm.layout;
  kind = filled is_empty p.kind fm.kind;
}

-- applyArrayFieldsIfMissing
unfoldable pub fill_arrays : FrontMatterPatch → FrontMatter → FrontMatter
fill_arrays p fm = record fm {
  tags = filled no_items p.tags fm.tags;
  categories = filled no_items p.categories fm.categories;
  keywords = filled no_items p.keywords fm.keywords;
}

unfoldable pub apply_set_if_missing : FrontMatterPatch → FrontMatter → FrontMatter
apply_set_if_missing p fm =
    let filled_in = fill_arrays p (fill_simple p fm) in
    record filled_in { custom = fill_customs filled_in.custom p.custom }

-- A loop of the union, over the set of the items seen and the result.
unfoldable pub add_unseen : List String → List String × List String → List String × List String
add_unseen [] (seen, result) = (seen, result)
add_unseen (x ∷ xs) (seen, result) =
    add_unseen xs (if contains seen x then (seen, result) else (x ∷ seen, result ++ (x ∷ [])))

-- mergeStringArray
unfoldable pub merge_string_array : ArrayMergeStrategy → List String → List String → List String
merge_string_array replace_items existing new_items = new_items
merge_string_array append_items existing new_items = existing ++ new_items
merge_string_array union_items existing new_items =
    (add_unseen new_items (add_unseen existing ([], []))).1
merge_string_array other_strategy existing new_items = new_items

merged : ArrayMergeStrategy → Option (List String) → List String → List String
merged s none old = old
merged s (some new_items) old = merge_string_array s old new_items

unfoldable pub apply_deep : FrontMatterPatch → FrontMatter → FrontMatter
unfolding merged
apply_deep p fm = record (replace_simple p fm) {
  tags = merged p.strategy p.tags fm.tags;
  categories = merged p.strategy p.categories fm.categories;
  keywords = merged p.strategy p.keywords fm.keywords;
  custom = set_customs fm.custom p.custom;
}

apply_mode : MergeMode → FrontMatterPatch → FrontMatter → Option FrontMatter
apply_mode merge_replace p fm = some (apply_replace p fm)
apply_mode merge_set_if_missing p fm = some (apply_set_if_missing p fm)
apply_mode merge_deep p fm = some (apply_deep p fm)
apply_mode other_mode p fm = none

-- Apply; `none` is an error, and front matter that is nil is none.
unfoldable pub apply : FrontMatterPatch → Option FrontMatter → Option FrontMatter
unfolding apply_mode
apply p none = none
apply p (some fm) = apply_mode p.mode p (clone fm)
