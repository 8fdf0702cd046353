-- ===== src/Patch/Tests.antt =====
-- A page and a patch of it, and the theorems about patches at them.
use Prim.Native.String.{String}
use text.Mathlib.TextEquality.{eq_iff}
use docbuilder.Common.{
  ◌≡◌, ◌≢◌, ap, ◌∙◌, Bool-cases, inl, inr, if_false, refl, true, false, none, some, [], ◌∷◌, arith,
}
use docbuilder.Common.Int.{pos}
use docbuilder.Common.Text.{str_eq, get}
use docbuilder.Patch.{
  a_string, FrontMatter, FrontMatterPatch, new_front_matter_patch, merge_set_if_missing, other_mode,
  append_items, union_items, merge_string_array, add_unseen, contains, apply,
}
use docbuilder.Patch.Build.{set_title, set_section, set_tags, set_patch_custom, with_merge_mode}
use docbuilder.Patch.Fields.{IsOverlay}
use docbuilder.Patch.Overlay.{apply-IsOverlay}
use docbuilder.Patch.Twice.{IsSame}
use docbuilder.Patch.Maps.{Layouts, known_keys, to_map, from_map}
use docbuilder.Patch.Maps.RoundTrip.{from_map-to_map}

abbrev page : FrontMatter
page = record {
  title = "Setup";
  date = 1700000000;
  draft = false;
  description = "";
  tags = "go" ∷ "docs" ∷ [];
  categories = [];
  keywords = [];
  repository = "api";
  forge = "";
  section = "";
  edit_url = "";
  weight = pos 3;
  layout = "";
  kind = "";
  custom = ("icon", a_string "gear") ∷ [];
}

abbrev patch : FrontMatterPatch
patch = set_patch_custom "icon" (a_string "book") (
    set_tags ("docs" ∷ "hugo" ∷ "hugo" ∷ [])
      (set_section "guides" (set_title "Install" new_front_matter_patch)))

abbrev gentle : FrontMatterPatch
gentle = with_merge_mode merge_set_if_missing patch

union_of_tags :
    merge_string_array union_items page.tags ("docs" ∷ "hugo" ∷ "hugo" ∷ [])
    ≡ "go" ∷ "docs" ∷ "hugo" ∷ []
unfolding merge_string_array add_unseen contains
union_of_tags = refl

deep_named : patch.mode ≢ other_mode
unfolding new_front_matter_patch
deep_named h = cc

deep_unites : patch.strategy ≢ append_items
unfolding new_front_matter_patch
deep_unites h = cc

apply-IsOverlay_example :
    (result : FrontMatter) × (apply patch (some page) ≡ some result) × IsOverlay patch page result
apply-IsOverlay_example = apply-IsOverlay patch page deep_named

-- Layouts that write and read the time of `page` only
abbrev layouts : Layouts
layouts = record {
  format = λ t. "2023-11-14T22:13:20+00:00";
  parse_rfc3339 = λ s. some 1700000000;
  parse_offset = λ s. none;
}

icon_free : (k : String) → contains known_keys k ≡ true → get page.custom k ≡ none
unfolding contains get
icon_free k h = elim (Bool-cases (str_eq "icon" k)) [
  | inl here ↦
      let icon_known : contains known_keys "icon" ≡ true =
        ap (contains known_keys) ((eq_iff "icon" k).0 here) ∙ h in
      absurd (cc)
  | inr other ↦ if_false (str_eq "icon" k) _ _ other
]

from_map-to_map_example : IsSame (from_map layouts 5 (to_map layouts page)) page
from_map-to_map_example =
    from_map-to_map layouts page refl icon_free 5 (λ h. absurd (ground (arith, h)))
