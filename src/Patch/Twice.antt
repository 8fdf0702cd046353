-- ===== src/Patch/Twice.antt =====
-- `Apply` of one patch after itself.
use Prim.Native.String.{String}
use docbuilder.Common.{◌≡◌, ◌≢◌, refl, sym, ap, ◌∙◌, Option, none, some, List, arith}
use docbuilder.Common.Text.{get}
use docbuilder.Patch.{
  Value, a_string, a_bool, an_int, a_time, strings, FrontMatter, FrontMatterPatch, MergeMode,
  merge_deep, merge_replace, merge_set_if_missing, other_mode, ArrayMergeStrategy, append_items,
  union_items, replace_items, other_strategy, merge_string_array, apply,
}
use docbuilder.Patch.Union.{union_twice}
use docbuilder.Patch.Overlay.{apply-IsOverlay}
use docbuilder.Patch.Fields.{
  Field, title, date, draft, description, tags, categories, keywords, repository, forge, section,
  edit_url, weight, layout, kind, value_at, given, under, overlay, overlay_custom, merge_value,
}

merge_twice :
    (s : ArrayMergeStrategy) (new old : List String)
    → s ≢ append_items
    → merge_string_array s (merge_string_array s old new) new ≡ merge_string_array s old new
unfolding merge_string_array
merge_twice replace_items new old h = refl
merge_twice append_items new old h = absurd (h refl)
merge_twice union_items new old h = union_twice old new
merge_twice other_strategy new old h = refl

-- The same value is laid over `old` a second time.
abbrev IsTwice : MergeMode → ArrayMergeStrategy → Option Value → Value → Type 0
IsTwice m s new old = overlay m s new (overlay m s new old) ≡ overlay m s new old

fill-IsTwice :
    (s : ArrayMergeStrategy) (new old : Value) → IsTwice merge_set_if_missing s (some new) old
fill-IsTwice s new old = ground arith

lists-IsTwice :
    (m : MergeMode) (s : ArrayMergeStrategy) (new : Option (List String)) (old : List String)
    → s ≢ append_items
    → IsTwice m s (under strings new) (strings old)
lists-IsTwice m s none old h = refl
lists-IsTwice merge_deep s (some new) old h = ap strings (merge_twice s new old h)
lists-IsTwice merge_replace s (some new) old h = refl
lists-IsTwice merge_set_if_missing s (some new) old h = fill-IsTwice s (strings new) (strings old)
lists-IsTwice other_mode s (some new) old h = refl

module _ {ℓ} {A : Type ℓ} (wrap : A → Value) where
  plain-IsTwice :
      (m : MergeMode) (s : ArrayMergeStrategy) (new : Option A) (old : A)
      → ((v w : A) → merge_value s (wrap v) (wrap w) ≡ wrap v)
      → IsTwice m s (under wrap new) (wrap old)
  plain-IsTwice m s none old h = refl
  plain-IsTwice merge_deep s (some new) old h =
      ap (merge_value s (wrap new)) (h new old) ∙ h new new ∙ sym (h new old)
  plain-IsTwice merge_replace s (some new) old h = refl
  plain-IsTwice merge_set_if_missing s (some new) old h = fill-IsTwice s (wrap new) (wrap old)
  plain-IsTwice other_mode s (some new) old h = refl

field-IsTwice :
    (p : FrontMatterPatch) (fm : FrontMatter) (f : Field)
    → p.strategy ≢ append_items
    → IsTwice p.mode p.strategy (given f p) (value_at f fm)
unfolding value_at given
field-IsTwice p fm title h = plain-IsTwice a_string p.mode p.strategy p.title fm.title (λ v w. refl)
field-IsTwice p fm date h = plain-IsTwice a_time p.mode p.strategy p.date fm.date (λ v w. refl)
field-IsTwice p fm draft h = plain-IsTwice a_bool p.mode p.strategy p.draft fm.draft (λ v w. refl)
field-IsTwice p fm description h =
    plain-IsTwice a_string p.mode p.strategy p.description fm.description (λ v w. refl)
field-IsTwice p fm tags h = lists-IsTwice p.mode p.strategy p.tags fm.tags h
field-IsTwice p fm categories h = lists-IsTwice p.mode p.strategy p.categories fm.categories h
field-IsTwice p fm keywords h = lists-IsTwice p.mode p.strategy p.keywords fm.keywords h
field-IsTwice p fm repository h =
    plain-IsTwice a_string p.mode p.strategy p.repository fm.repository (λ v w. refl)
field-IsTwice p fm forge h = plain-IsTwice a_string p.mode p.strategy p.forge fm.forge (λ v w. refl)
field-IsTwice p fm section h =
    plain-IsTwice a_string p.mode p.strategy p.section fm.section (λ v w. refl)
field-IsTwice p fm edit_url h =
    plain-IsTwice a_string p.mode p.strategy p.edit_url fm.edit_url (λ v w. refl)
field-IsTwice p fm weight h =
    plain-IsTwice an_int p.mode p.strategy p.weight fm.weight (λ v w. refl)
field-IsTwice p fm layout h =
    plain-IsTwice a_string p.mode p.strategy p.layout fm.layout (λ v w. refl)
field-IsTwice p fm kind h = plain-IsTwice a_string p.mode p.strategy p.kind fm.kind (λ v w. refl)

custom_twice :
    (m : MergeMode) (new old : Option Value)
    → overlay_custom m new (overlay_custom m new old) ≡ overlay_custom m new old
custom_twice m new old = ground arith

-- Two front matters that no field and no custom key tells apart
pub record IsSame (a b : FrontMatter) : Type 0 where
  pub fields : (f : Field) → value_at f a ≡ value_at f b
  pub customs : (k : String) → get a.custom k ≡ get b.custom k

-- A patch with a mode that has a name, which does not append lists, has its whole effect at once:
-- applied again to what it returned, it succeeds and changes no field and no custom key.
pub apply_twice :
    (p : FrontMatterPatch) (fm : FrontMatter)
    → p.mode ≢ other_mode
    → p.strategy ≢ append_items
    → (once twice : FrontMatter) × (apply p (some fm) ≡ some once)
      × (apply p (some once) ≡ some twice)
      × IsSame twice once
apply_twice p fm named h =
    let (once, eq, o) = apply-IsOverlay p fm named in
    let (twice, eq_again, o_again) = apply-IsOverlay p once named in
    (
      once,
      twice,
      eq,
      eq_again,
      record {
        fields = λ f.
            o_again.fields f
            ∙ ap (overlay p.mode p.strategy (given f p)) (o.fields f)
            ∙ field-IsTwice p fm f h
            ∙ sym (o.fields f);
        customs = λ k.
            o_again.customs k
            ∙ ap (overlay_custom p.mode (get p.custom k)) (o.customs k)
            ∙ custom_twice p.mode (get p.custom k) (get fm.custom k)
            ∙ sym (o.customs k);
      },
    )
