-- ===== src/Patch/Maps/RoundTrip.antt =====
-- What `FromMap` reads from the map that `ToMap` made.
use Prim.Native.String.{String}
use text.Mathlib.TextEquality.{eq_iff}
use docbuilder.Common.{
  ℕ, Bool, true, false, not, ◌≡◌, ◌≢◌, refl, sym, ap, ◌∙◌, Option, none, some, List, [], ◌∷◌,
  if◌then◌else◌, if_true, if_false, ◌==◌, arith, map, Bool-cases, inl, inr,
}
use docbuilder.Common.Int.{ℤ}
use docbuilder.Common.Text.{StringMap, get, get-put, is_empty, str_eq}
use docbuilder.Patch.{
  Value, a_string, a_bool, an_int, a_time, strings, FrontMatter, no_items, is_zero, copy, contains,
}
use docbuilder.Patch.Fields.{
  first, Field, title, date, draft, description, tags, categories, keywords, repository, forge,
  section, edit_url, weight, layout, kind, value_at,
}
use docbuilder.Patch.Twice.{IsSame}
use docbuilder.Patch.Maps.{
  Layouts, shown, entries, put_some, put_present, to_map, read_string, read_bool, read_int,
  read_date, read_items, known_keys, unrecognized, from_map, first_parsed,
}

-- The last entry of a key that is present
lookup : List (String × Option Value) → String → Option Value
lookup [] k = none
lookup (e ∷ es) k = let later = lookup es k in if str_eq e.0 k then first later e.1 else later

get-put_some :
    (m : StringMap Value) (j : String) (o : Option Value) (k : String)
    → get (put_some m j o) k ≡ first (if str_eq j k then o else none) (get m k)
get-put_some m j none k = ground arith
get-put_some m j (some v) k = ground (arith, get-put m j v k)

get-put_present :
    (m : StringMap Value) (es : List (String × Option Value)) (k : String)
    → get (put_present m es) k ≡ first (lookup es k) (get m k)
unfolding put_present lookup
get-put_present m [] k = refl
get-put_present m (e ∷ es) k =
    ground (arith, get-put_present (put_some m e.0 e.1) es k, get-put_some m e.0 e.1 k)

get-copy_onto :
    (dst src : StringMap Value) (k : String) → get (copy dst src) k ≡ first (get src k) (get dst k)
unfolding copy get
get-copy_onto dst [] k = refl
get-copy_onto dst (e ∷ src) k =
    ground (arith, get-copy_onto dst src k, get-put (copy dst src) e.0 e.1 k)

lookup_absent :
    (es : List (String × Option Value)) (k : String)
    → contains (map (λ e. e.0) es) k ≡ false
    → lookup es k ≡ none
unfolding lookup contains
lookup_absent [] k h = refl
lookup_absent (e ∷ es) k h = ground (arith, h, lookup_absent es k)

get-unrecognized :
    (entered : StringMap Value) (k : String)
    → get (unrecognized entered) k ≡ (if contains known_keys k then none else get entered k)
unfolding unrecognized get
get-unrecognized [] k = ground arith
get-unrecognized (e ∷ entered) k =
    ground
      (arith, get-unrecognized entered k, get-put (unrecognized entered) e.0 e.1 k, eq_iff e.0 k)

read_string-shown : (s : String) → read_string (shown (is_empty s) (a_string s)) ≡ s
read_string-shown s = ground (arith, eq_iff s "")

read_bool-shown : (b : Bool) → read_bool (shown (not b) (a_bool b)) ≡ b
read_bool-shown true = refl
read_bool-shown false = refl

read_int-shown : (n : ℤ) → read_int (shown (is_zero n) (an_int n)) ≡ n
read_int-shown n = ground arith

read_items-shown : (xs : List String) → read_items (shown (no_items xs) (strings xs)) ≡ xs
unfolding read_items
read_items-shown [] = refl
read_items-shown (x ∷ xs) = refl

module _ (l : Layouts) (fm : FrontMatter)
    (reads_back : l.parse_rfc3339 (l.format fm.date) ≡ some fm.date)
    (free : (k : String) → contains known_keys k ≡ true → get fm.custom k ≡ none) where
  -- A known key of the map holds what its entry shows.
  get-to_map :
      (k : String) → contains known_keys k ≡ true → get (to_map l fm) k ≡ lookup (entries l fm) k
  unfolding to_map get
  get-to_map k h = ground (
    arith,
    get-copy_onto (put_present [] (entries l fm)) fm.custom k,
    free k,
    get-put_present [] (entries l fm) k,
  )

  read_date-shown :
      (now : ℕ)
      → fm.date ≢ 0
      → read_date l now (shown (fm.date == 0) (a_string (l.format fm.date))) ≡ fm.date
  unfolding read_date first_parsed
  read_date-shown now h = ground (arith, h, reads_back)

  from_map_fields :
      (now : ℕ) (f : Field)
      → fm.date ≢ 0
      → value_at f (from_map l now (to_map l fm)) ≡ value_at f fm
  unfolding from_map value_at lookup entries contains
  from_map_fields now title h =
      ap (λ o. a_string (read_string o)) (get-to_map "title" refl)
      ∙ ap a_string (read_string-shown fm.title)
  from_map_fields now date h =
      ap (λ o. a_time (read_date l now o)) (get-to_map "date" refl)
      ∙ ap a_time (read_date-shown now h)
  from_map_fields now draft h =
      ap (λ o. a_bool (read_bool o)) (get-to_map "draft" refl)
      ∙ ap a_bool (read_bool-shown fm.draft)
  from_map_fields now description h =
      ap (λ o. a_string (read_string o)) (get-to_map "description" refl)
      ∙ ap a_string (read_string-shown fm.description)
  from_map_fields now repository h =
      ap (λ o. a_string (read_string o)) (get-to_map "repository" refl)
      ∙ ap a_string (read_string-shown fm.repository)
  from_map_fields now forge h =
      ap (λ o. a_string (read_string o)) (get-to_map "forge" refl)
      ∙ ap a_string (read_string-shown fm.forge)
  from_map_fields now section h =
      ap (λ o. a_string (read_string o)) (get-to_map "section" refl)
      ∙ ap a_string (read_string-shown fm.section)
  from_map_fields now edit_url h =
      ap (λ o. a_string (read_string o)) (get-to_map "edit_url" refl)
      ∙ ap a_string (read_string-shown fm.edit_url)
  from_map_fields now weight h =
      ap (λ o. an_int (read_int o)) (get-to_map "weight" refl)
      ∙ ap an_int (read_int-shown fm.weight)
  from_map_fields now layout h =
      ap (λ o. a_string (read_string o)) (get-to_map "layout" refl)
      ∙ ap a_string (read_string-shown fm.layout)
  from_map_fields now kind h =
      ap (λ o. a_string (read_string o)) (get-to_map "type" refl)
      ∙ ap a_string (read_string-shown fm.kind)
  from_map_fields now tags h =
      ap (λ o. strings (read_items o)) (get-to_map "tags" refl)
      ∙ ap strings (read_items-shown fm.tags)
  from_map_fields now categories h =
      ap (λ o. strings (read_items o)) (get-to_map "categories" refl)
      ∙ ap strings (read_items-shown fm.categories)
  from_map_fields now keywords h =
      ap (λ o. strings (read_items o)) (get-to_map "keywords" refl)
      ∙ ap strings (read_items-shown fm.keywords)

  custom_only : (k : String) → contains known_keys k ≡ false → get (to_map l fm) k ≡ get fm.custom k
  unfolding to_map get entries
  custom_only k h = ground (
    arith,
    get-copy_onto (put_present [] (entries l fm)) fm.custom k,
    get-put_present [] (entries l fm) k,
    lookup_absent (entries l fm) k h,
  )

  from_map_customs :
      (now : ℕ) (k : String) → get (from_map l now (to_map l fm)).custom k ≡ get fm.custom k
  unfolding from_map
  from_map_customs now k = elim (Bool-cases (contains known_keys k)) [
    | inl h ↦
        get-unrecognized (to_map l fm) k ∙ if_true (contains known_keys k) _ _ h ∙ sym (free k h)
    | inr h ↦
        get-unrecognized (to_map l fm) k ∙ if_false (contains known_keys k) _ _ h ∙ custom_only k h
  ]

  -- Front matter with a date that the layouts read back, and without custom fields under the known
  -- keys: `FromMap`, at any time, reads each field and each custom field back from the map that
  -- `ToMap` makes.
  pub from_map-to_map : (now : ℕ) → fm.date ≢ 0 → IsSame (from_map l now (to_map l fm)) fm
  from_map-to_map now h = record {
    fields = λ f. from_map_fields now f h;
    customs = from_map_customs now;
  }
