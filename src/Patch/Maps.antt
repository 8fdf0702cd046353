-- ===== src/Patch/Maps.antt =====
-- Front matter and patches as maps with values of any type, and the way back: `FromMap`, `ToMap`.
pub mod RoundTrip
use Prim.Native.String.{String}
use docbuilder.Common.{
  ℕ, Bool, true, false, not, ◌&&◌, Option, none, some, List, [], ◌∷◌, ◌++◌, if◌then◌else◌, ◌==◌,
}
use docbuilder.Common.Int.{ℤ, pos}
use docbuilder.Common.Text.{StringMap, get, put, is_empty, str_eq}
use docbuilder.Patch.{
  Value, Values, a_string, a_bool, an_int, a_time, strings, anys, other, no_value, and_value,
  FrontMatter, FrontMatterPatch, no_items, is_zero, copy, contains,
}

-- time.Format and time.Parse with the layouts that the code uses
pub record Layouts : Type 0 where
  pub format : ℕ → String
  pub parse_rfc3339 : String → Option ℕ
  pub parse_offset : String → Option ℕ

abbrev shown : Bool → Value → Option Value
shown true v = none
shown false v = some v

-- The conditional assignments of `ToMap`, in order
unfoldable pub entries : Layouts → FrontMatter → List (String × Option Value)
entries l fm =
    ("title", shown (is_empty fm.title) (a_string fm.title))
    ∷ ("date", shown (fm.date == 0) (a_string (l.format fm.date)))
    ∷ ("draft", shown (not fm.draft) (a_bool fm.draft))
    ∷ ("description", shown (is_empty fm.description) (a_string fm.description))
    ∷ ("repository", shown (is_empty fm.repository) (a_string fm.repository))
    ∷ ("forge", shown (is_empty fm.forge) (a_string fm.forge))
    ∷ ("section", shown (is_empty fm.section) (a_string fm.section))
    ∷ ("edit_url", shown (is_empty fm.edit_url) (a_string fm.edit_url))
    ∷ ("weight", shown (is_zero fm.weight) (an_int fm.weight))
    ∷ ("layout", shown (is_empty fm.layout) (a_string fm.layout))
    ∷ ("type", shown (is_empty fm.kind) (a_string fm.kind))
    ∷ ("tags", shown (no_items fm.tags) (strings fm.tags))
    ∷ ("categories", shown (no_items fm.categories) (strings fm.categories))
    ∷ ("keywords", shown (no_items fm.keywords) (strings fm.keywords))
    ∷ []

abbrev put_some : StringMap Value → String → Option Value → StringMap Value
put_some m k none = m
put_some m k (some v) = put m k v

unfoldable pub put_present : StringMap Value → List (String × Option Value) → StringMap Value
put_present m [] = m
put_present m (e ∷ es) = put_present (put_some m e.0 e.1) es

unfoldable pub to_map : Layouts → FrontMatter → StringMap Value
to_map l fm = copy (put_present [] (entries l fm)) fm.custom

abbrev mapped {ℓ} : {A : Type ℓ} → (A → Value) → Option A → Option Value
mapped f none = none
mapped f (some v) = some (f v)

-- The conditional assignments of the patch's `ToMap`
unfoldable pub patch_entries : Layouts → FrontMatterPatch → List (String × Option Value)
patch_entries l p =
    ("title", mapped a_string p.title)
    ∷ ("date", mapped (λ t. a_string (l.format t)) p.date)
    ∷ ("draft", mapped a_bool p.draft)
    ∷ ("description", mapped a_string p.description)
    ∷ ("repository", mapped a_string p.repository)
    ∷ ("forge", mapped a_string p.forge)
    ∷ ("section", mapped a_string p.section)
    ∷ ("edit_url", mapped a_string p.edit_url)
    ∷ ("weight", mapped an_int p.weight)
    ∷ ("layout", mapped a_string p.layout)
    ∷ ("type", mapped a_string p.kind)
    ∷ ("tags", mapped strings p.tags)
    ∷ ("categories", mapped strings p.categories)
    ∷ ("keywords", mapped strings p.keywords)
    ∷ []

unfoldable pub patch_to_map : Layouts → FrontMatterPatch → StringMap Value
patch_to_map l p = copy (put_present [] (patch_entries l p)) p.custom

-- if v, ok := entered[key].(string); ok { fm.X = v }, with the zero value before
abbrev pub read_string : Option Value → String
read_string (some (a_string s)) = s
read_string _ = ""

abbrev pub read_bool : Option Value → Bool
read_bool (some (a_bool b)) = b
read_bool _ = false

abbrev pub read_int : Option Value → ℤ
read_int (some (an_int n)) = n
read_int _ = pos 0

first_parsed : Option ℕ → Option ℕ → ℕ → ℕ
first_parsed (some t) second now = t
first_parsed none (some t) now = t
first_parsed none none now = now

unfoldable pub read_date : Layouts → ℕ → Option Value → ℕ
unfolding first_parsed
read_date l now (some (a_time t)) = t
read_date l now (some (a_string s)) = first_parsed (l.parse_rfc3339 s) (l.parse_offset s) now
read_date l now _ = now

-- An item of another type leaves the empty string.
items_of : Values → List String
items_of no_value = []
items_of (and_value v vs) = read_string (some v) ∷ items_of vs

unfoldable pub read_items : Option Value → List String
unfolding items_of
read_items (some (anys vs)) = items_of vs
read_items (some (strings xs)) = xs
read_items _ = []

-- The keys that `FromMap` handles itself
abbrev pub known_keys : List String
known_keys =
    "title" ∷ "date" ∷ "draft" ∷ "description" ∷ "repository" ∷ "forge" ∷ "section" ∷ "edit_url"
    ∷ "weight" ∷ "layout" ∷ "type" ∷ "tags" ∷ "categories" ∷ "keywords" ∷ []

-- The loop that stores unrecognized fields, the head of the list last
unfoldable pub unrecognized : StringMap Value → StringMap Value
unrecognized [] = []
unrecognized (e ∷ entered) =
    let rest = unrecognized entered in if contains known_keys e.0 then rest else put rest e.0 e.1

-- FromMap at the time `now`; it never returns an error.
unfoldable pub from_map : Layouts → ℕ → StringMap Value → FrontMatter
from_map l now entered = record {
  title = read_string (get entered "title");
  date = read_date l now (get entered "date");
  draft = read_bool (get entered "draft");
  description = read_string (get entered "description");
  repository = read_string (get entered "repository");
  forge = read_string (get entered "forge");
  section = read_string (get entered "section");
  edit_url = read_string (get entered "edit_url");
  weight = read_int (get entered "weight");
  layout = read_string (get entered "layout");
  kind = read_string (get entered "type");
  tags = read_items (get entered "tags");
  categories = read_items (get entered "categories");
  keywords = read_items (get entered "keywords");
  custom = unrecognized entered;
}

-- Validate
pub data Invalid : Type 0 where
  title_required : Invalid
  date_required : Invalid
  repository_required : Invalid

unfoldable pub validate : FrontMatter → Option Invalid
validate fm =
    if is_empty fm.title
    then some title_required
    else if fm.date == 0
    then some date_required
    else if is_empty fm.repository
    then some repository_required
    else none
