-- ===== src/Patch/Overlay.antt =====
-- What `Apply` makes of each field and of each custom key, next to an overlay of values.
use Prim.Native.String.{String}
use text.Mathlib.TextEquality.{eq_iff}
use docbuilder.Common.{
  Bool, not, ◌≡◌, ◌≢◌, refl, sym, ap, ◌∙◌, Option, none, some, List, [], ◌∷◌, ◌==◌, arith,
}
use docbuilder.Common.Text.{StringMap, get, put, get-put, is_empty}
use docbuilder.Patch.{
  Value, a_string, a_bool, an_int, a_time, strings, FrontMatter, FrontMatterPatch, MergeMode,
  merge_deep, merge_replace, merge_set_if_missing, other_mode, ArrayMergeStrategy, no_items,
  is_zero, copy, clone, replaced, filled, set_customs, is_present, fill_customs, replace_simple,
  apply_replace, fill_simple, fill_arrays, apply_set_if_missing, merged, apply_deep, apply_mode,
  apply,
}
use docbuilder.Patch.Fields.{
  Field, title, date, draft, description, tags, categories, keywords, repository, forge, section,
  edit_url, weight, layout, kind, value_at, given, under, merge_value, is_zero_value, overlay,
  first, overlay_custom, OverlaysAs, IsOverlay,
}

module _ {ℓ} {A : Type ℓ} (wrap : A → Value) where
  replaced-under :
      (s : ArrayMergeStrategy) (o : Option A) (old : A)
      → wrap (replaced o old) ≡ overlay merge_replace s (under wrap o) (wrap old)
  replaced-under s none old = refl
  replaced-under s (some v) old = refl

  filled-under :
      (s : ArrayMergeStrategy) (empty : A → Bool) (o : Option A) (old : A)
      → empty old ≡ is_zero_value (wrap old)
      → wrap (filled empty o old) ≡ overlay merge_set_if_missing s (under wrap o) (wrap old)
  filled-under s empty none old h = refl
  filled-under s empty (some v) old h = ground (arith, h)

replace_fields :
    (s : ArrayMergeStrategy) (p : FrontMatterPatch) (fm : FrontMatter) (f : Field)
    → value_at f (apply_replace p fm) ≡ overlay merge_replace s (given f p) (value_at f fm)
unfolding value_at given apply_replace replace_simple
replace_fields s p fm title = replaced-under a_string s p.title fm.title
replace_fields s p fm date = replaced-under a_time s p.date fm.date
replace_fields s p fm draft = replaced-under a_bool s p.draft fm.draft
replace_fields s p fm description = replaced-under a_string s p.description fm.description
replace_fields s p fm tags = replaced-under strings s p.tags fm.tags
replace_fields s p fm categories = replaced-under strings s p.categories fm.categories
replace_fields s p fm keywords = replaced-under strings s p.keywords fm.keywords
replace_fields s p fm repository = replaced-under a_string s p.repository fm.repository
replace_fields s p fm forge = replaced-under a_string s p.forge fm.forge
replace_fields s p fm section = replaced-under a_string s p.section fm.section
replace_fields s p fm edit_url = replaced-under a_string s p.edit_url fm.edit_url
replace_fields s p fm weight = replaced-under an_int s p.weight fm.weight
replace_fields s p fm layout = replaced-under a_string s p.layout fm.layout
replace_fields s p fm kind = replaced-under a_string s p.kind fm.kind

fill_fields :
    (s : ArrayMergeStrategy) (p : FrontMatterPatch) (fm : FrontMatter) (f : Field)
    → value_at f (apply_set_if_missing p fm)
      ≡ overlay merge_set_if_missing s (given f p) (value_at f fm)
unfolding value_at given apply_set_if_missing fill_simple fill_arrays
fill_fields s p fm title = filled-under a_string s is_empty p.title fm.title refl
fill_fields s p fm date = filled-under a_time s (λ t. t == 0) p.date fm.date refl
fill_fields s p fm draft = filled-under a_bool s not p.draft fm.draft refl
fill_fields s p fm description = filled-under a_string s is_empty p.description fm.description refl
fill_fields s p fm tags = filled-under strings s no_items p.tags fm.tags refl
fill_fields s p fm categories = filled-under strings s no_items p.categories fm.categories refl
fill_fields s p fm keywords = filled-under strings s no_items p.keywords fm.keywords refl
fill_fields s p fm repository = filled-under a_string s is_empty p.repository fm.repository refl
fill_fields s p fm forge = filled-under a_string s is_empty p.forge fm.forge refl
fill_fields s p fm section = filled-under a_string s is_empty p.section fm.section refl
fill_fields s p fm edit_url = filled-under a_string s is_empty p.edit_url fm.edit_url refl
fill_fields s p fm weight = filled-under an_int s is_zero p.weight fm.weight refl
fill_fields s p fm layout = filled-under a_string s is_empty p.layout fm.layout refl
fill_fields s p fm kind = filled-under a_string s is_empty p.kind fm.kind refl

merged-under :
    (s : ArrayMergeStrategy) (o : Option (List String)) (old : List String)
    → strings (merged s o old) ≡ overlay merge_deep s (under strings o) (strings old)
unfolding merged
merged-under s none old = refl
merged-under s (some v) old = refl

module _ {ℓ} {A : Type ℓ} (wrap : A → Value) where
  deep_under :
      (s : ArrayMergeStrategy)
      → ((new old : A) → merge_value s (wrap new) (wrap old) ≡ wrap new)
      → (o : Option A) (old : A)
      → wrap (replaced o old) ≡ overlay merge_deep s (under wrap o) (wrap old)
  deep_under s h none old = refl
  deep_under s h (some v) old = sym (h v old)

deep_fields :
    (p : FrontMatterPatch) (fm : FrontMatter) (f : Field)
    → value_at f (apply_deep p fm) ≡ overlay merge_deep p.strategy (given f p) (value_at f fm)
unfolding value_at given apply_deep replace_simple
deep_fields p fm title = deep_under a_string p.strategy (λ new old. refl) p.title fm.title
deep_fields p fm date = deep_under a_time p.strategy (λ new old. refl) p.date fm.date
deep_fields p fm draft = deep_under a_bool p.strategy (λ new old. refl) p.draft fm.draft
deep_fields p fm description =
    deep_under a_string p.strategy (λ new old. refl) p.description fm.description
deep_fields p fm tags = merged-under p.strategy p.tags fm.tags
deep_fields p fm categories = merged-under p.strategy p.categories fm.categories
deep_fields p fm keywords = merged-under p.strategy p.keywords fm.keywords
deep_fields p fm repository =
    deep_under a_string p.strategy (λ new old. refl) p.repository fm.repository
deep_fields p fm forge = deep_under a_string p.strategy (λ new old. refl) p.forge fm.forge
deep_fields p fm section = deep_under a_string p.strategy (λ new old. refl) p.section fm.section
deep_fields p fm edit_url = deep_under a_string p.strategy (λ new old. refl) p.edit_url fm.edit_url
deep_fields p fm weight = deep_under an_int p.strategy (λ new old. refl) p.weight fm.weight
deep_fields p fm layout = deep_under a_string p.strategy (λ new old. refl) p.layout fm.layout
deep_fields p fm kind = deep_under a_string p.strategy (λ new old. refl) p.kind fm.kind

get-set_customs :
    (m src : StringMap Value) (k : String) → get (set_customs m src) k ≡ first (get src k) (get m k)
unfolding set_customs get
get-set_customs m [] k = refl
get-set_customs m (e ∷ src) k =
    ground (arith, get-set_customs m src k, get-put (set_customs m src) e.0 e.1 k)

get-copy : (src : StringMap Value) (k : String) → get (copy [] src) k ≡ get src k
unfolding copy get
get-copy [] k = refl
get-copy (e ∷ src) k = ground (arith, get-copy src k, get-put (copy [] src) e.0 e.1 k)

get-fill_customs :
    (m src : StringMap Value) (k : String)
    → get (fill_customs m src) k ≡ first (get m k) (get src k)
unfolding fill_customs get is_present
get-fill_customs m [] k = ground arith
get-fill_customs m (e ∷ src) k = ground (
  arith,
  get-fill_customs m src k,
  get-fill_customs (put m e.0 e.1) src k,
  get-put m e.0 e.1 k,
  eq_iff e.0 k,
)

value_at-clone : (f : Field) (fm : FrontMatter) → value_at f (clone fm) ≡ value_at f fm
unfolding value_at clone
value_at-clone f fm = ground arith

custom-replace :
    (p : FrontMatterPatch) (fm : FrontMatter)
    → (apply_replace p fm).custom ≡ set_customs fm.custom p.custom
unfolding apply_replace replace_simple
custom-replace p fm = refl

custom-deep :
    (p : FrontMatterPatch) (fm : FrontMatter)
    → (apply_deep p fm).custom ≡ set_customs fm.custom p.custom
unfolding apply_deep replace_simple
custom-deep p fm = refl

custom-fill :
    (p : FrontMatterPatch) (fm : FrontMatter)
    → (apply_set_if_missing p fm).custom ≡ fill_customs fm.custom p.custom
unfolding apply_set_if_missing fill_arrays fill_simple
custom-fill p fm = refl

-- From a clone on, which has the same fields and custom values
of_clone :
    (m : MergeMode) (p : FrontMatterPatch) (fm result : FrontMatter)
    → OverlaysAs m p (clone fm) result
    → OverlaysAs m p fm result
of_clone m p fm result o = record {
  fields = λ f. o.fields f ∙ ap (overlay m p.strategy (given f p)) (value_at-clone f fm);
  customs = λ k.
      o.customs k ∙ ap (overlay_custom m (get p.custom k)) (unfold clone in get-copy fm.custom k);
}

apply_mode-OverlaysAs :
    (m : MergeMode) (p : FrontMatterPatch) (fm : FrontMatter)
    → m ≢ other_mode
    → (result : FrontMatter) × (apply_mode m p fm ≡ some result) × OverlaysAs m p fm result
unfolding apply_mode
apply_mode-OverlaysAs merge_replace p fm h = (
  apply_replace p fm,
  refl,
  record {
    fields = replace_fields p.strategy p fm;
    customs = λ k. rw (custom-replace p fm) (get-set_customs fm.custom p.custom k);
  },
)
apply_mode-OverlaysAs merge_deep p fm h = (
  apply_deep p fm,
  refl,
  record {
    fields = deep_fields p fm;
    customs = λ k. rw (custom-deep p fm) (get-set_customs fm.custom p.custom k);
  },
)
apply_mode-OverlaysAs merge_set_if_missing p fm h = (
  apply_set_if_missing p fm,
  refl,
  record {
    fields = fill_fields p.strategy p fm;
    customs = λ k. rw (custom-fill p fm) (get-fill_customs fm.custom p.custom k);
  },
)
apply_mode-OverlaysAs other_mode p fm h = absurd (h refl)

-- With a mode that has a name, `Apply` succeeds on front matter, and each of its fields and custom
-- keys then holds the overlay of the patch's value, if it gives one, on the value it had: replaced;
-- set only where it was zero (a custom key: missing); or, in deep mode, lists merged and other
-- values replaced.
pub apply-IsOverlay :
    (p : FrontMatterPatch) (fm : FrontMatter)
    → p.mode ≢ other_mode
    → (result : FrontMatter) × (apply p (some fm) ≡ some result) × IsOverlay p fm result
unfolding apply
apply-IsOverlay p fm h =
    let (result, eq, o) = apply_mode-OverlaysAs p.mode p (clone fm) h in
    (result, eq, of_clone p.mode p fm result o)
