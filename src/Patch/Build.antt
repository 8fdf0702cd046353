-- ===== src/Patch/Build.antt =====
-- The setters of patches, and the methods that add to front matter or read its custom fields.
use Prim.Native.String.{String}
use docbuilder.Common.{
  ℕ, Bool, true, false, ◌&&◌, Option, none, some, List, [], ◌∷◌, ◌++◌, if◌then◌else◌,
}
use docbuilder.Common.Int.{ℤ}
use docbuilder.Common.Text.{get, put}
use docbuilder.Patch.{
  Value, a_string, an_int, FrontMatter, FrontMatterPatch, MergeMode, ArrayMergeStrategy, contains,
}

-- SetTitle
abbrev pub set_title : String → FrontMatterPatch → FrontMatterPatch
set_title v p = record p { title = some v }

-- SetDate
abbrev pub set_date : ℕ → FrontMatterPatch → FrontMatterPatch
set_date v p = record p { date = some v }

-- SetDraft
abbrev pub set_draft : Bool → FrontMatterPatch → FrontMatterPatch
set_draft v p = record p { draft = some v }

-- SetDescription
abbrev pub set_description : String → FrontMatterPatch → FrontMatterPatch
set_description v p = record p { description = some v }

-- SetRepository
abbrev pub set_repository : String → FrontMatterPatch → FrontMatterPatch
set_repository v p = record p { repository = some v }

-- SetForge
abbrev pub set_forge : String → FrontMatterPatch → FrontMatterPatch
set_forge v p = record p { forge = some v }

-- SetSection
abbrev pub set_section : String → FrontMatterPatch → FrontMatterPatch
set_section v p = record p { section = some v }

-- SetEditURL
abbrev pub set_edit_url : String → FrontMatterPatch → FrontMatterPatch
set_edit_url v p = record p { edit_url = some v }

-- SetWeight
abbrev pub set_weight : ℤ → FrontMatterPatch → FrontMatterPatch
set_weight v p = record p { weight = some v }

-- SetLayout
abbrev pub set_layout : String → FrontMatterPatch → FrontMatterPatch
set_layout v p = record p { layout = some v }

-- SetType
abbrev pub set_kind : String → FrontMatterPatch → FrontMatterPatch
set_kind v p = record p { kind = some v }

-- SetTags
abbrev pub set_tags : List String → FrontMatterPatch → FrontMatterPatch
set_tags v p = record p { tags = some v }

-- SetCategories
abbrev pub set_categories : List String → FrontMatterPatch → FrontMatterPatch
set_categories v p = record p { categories = some v }

-- SetKeywords
abbrev pub set_keywords : List String → FrontMatterPatch → FrontMatterPatch
set_keywords v p = record p { keywords = some v }

-- SetCustom on a patch
abbrev pub set_patch_custom : String → Value → FrontMatterPatch → FrontMatterPatch
set_patch_custom key v p = record p { custom = put p.custom key v }

-- WithMergeMode
abbrev pub with_merge_mode : MergeMode → FrontMatterPatch → FrontMatterPatch
with_merge_mode m p = record p { mode = m }

-- WithArrayMergeStrategy
abbrev pub with_array_merge_strategy : ArrayMergeStrategy → FrontMatterPatch → FrontMatterPatch
with_array_merge_strategy s p = record p { strategy = s }

is_nil {ℓ} : {A : Type ℓ} → Option A → Bool
is_nil none = true
is_nil (some v) = false

no_custom : List (String × Value) → Bool
no_custom [] = true
no_custom (e ∷ m) = false

-- IsEmpty
unfoldable pub is_empty_patch : FrontMatterPatch → Bool
unfolding is_nil no_custom
is_empty_patch p =
    is_nil p.title
    && is_nil p.date
    && is_nil p.draft
    && is_nil p.description
    && is_nil p.repository
    && is_nil p.forge
    && is_nil p.section
    && is_nil p.edit_url
    && is_nil p.weight
    && is_nil p.layout
    && is_nil p.kind
    && is_nil p.tags
    && is_nil p.categories
    && is_nil p.keywords
    && no_custom p.custom

-- SetCustom on front matter
abbrev pub set_custom : String → Value → FrontMatter → FrontMatter
set_custom key v fm = record fm { custom = put fm.custom key v }

-- GetCustomString; `none` is "not a string, or missing".
custom_string : Option Value → Option String
custom_string (some (a_string s)) = some s
custom_string _ = none

pub get_custom_string : FrontMatter → String → Option String
get_custom_string fm key = custom_string (get fm.custom key)

custom_int : Option Value → Option ℤ
custom_int (some (an_int n)) = some n
custom_int _ = none

-- GetCustomInt
pub get_custom_int : FrontMatter → String → Option ℤ
get_custom_int fm key = custom_int (get fm.custom key)

-- AddTag, AddCategory and AddKeyword add an item that is not there.
add_item : String → List String → List String
add_item x xs = if contains xs x then xs else xs ++ (x ∷ [])

pub add_tag : String → FrontMatter → FrontMatter
add_tag x fm = record fm { tags = add_item x fm.tags }

pub add_category : String → FrontMatter → FrontMatter
add_category x fm = record fm { categories = add_item x fm.categories }

pub add_keyword : String → FrontMatter → FrontMatter
add_keyword x fm = record fm { keywords = add_item x fm.keywords }
