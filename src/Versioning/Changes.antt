-- ===== src/Versioning/Changes.antt =====
-- calculateVersionChanges: what the three counts say of the old and the new names.
use Prim.Native.String.{String}
use text.Mathlib.TextEquality.{eq_iff}
use docbuilder.Common.{
  ◌+◌, ◌≤◌, Bool, true, false, not, ◌≡◌, refl, ◌∙◌, ap, Option, All, or_else, none, some, List, [],
  ◌∷◌, if◌then◌else◌, arith, length,
}
use docbuilder.Common.Text.{StringMap, get, put, get-put, str_eq}
use mathlib.Core.Path.{fun_ext}
use docbuilder.Versioning.{Version, by_name, count_updated, calculate_version_changes}
use docbuilder.Versioning.Names.{
  is_named, count_names, has, has_unique_keys, by_name_unique, missing-common, updated-common,
  common_comm, count_keys, names_lem, length-keys, missing_lem,
}

-- The version that the map by name has, the last with the name
unfoldable pub last_named : List Version → String → Option Version
last_named [] k = none
last_named (v ∷ vs) k = or_else (last_named vs k) (if str_eq v.name k then some v else none)

-- Both are there, with different commits.
abbrev pub differ : Option Version → Option Version → Bool
differ (some o) (some n) = not (str_eq o.commit_sha n.commit_sha)
differ _ _ = false

get-by_name :
    (vs : List Version) (m : StringMap Version) (k : String)
    → get (by_name vs m) k ≡ or_else (last_named vs k) (get m k)
unfolding by_name last_named
get-by_name [] m k = refl
get-by_name (v ∷ vs) m k = ground (arith, get-by_name vs (put m v.name v) k, get-put m v.name v k)

get_last : (vs : List Version) (k : String) → get (by_name vs []) k ≡ last_named vs k
unfolding get
get_last vs k = ground (arith, get-by_name vs [] k)

-- Each entry of a map with unique keys is found under its key.
still_found :
    (x : String × Version) (m es : StringMap Version)
    → has es x.0 ≡ false
    → All (λ e. get m e.0 ≡ some e.1) es
    → All (λ e. get (x ∷ m) e.0 ≡ some e.1) es
unfolding has get
still_found x m [] h a = tt
still_found x m (e ∷ es) h a = (
  ground (arith, h, a.0, eq_iff x.0 e.0, eq_iff e.0 x.0),
  still_found x m es (ground (arith, h)) a.1,
)

entries_found :
    (m : StringMap Version) → has_unique_keys m ≡ true → All (λ e. get m e.0 ≡ some e.1) m
unfolding has_unique_keys
entries_found [] h = tt
entries_found (x ∷ m) h = (
  unfold get in ground (arith, eq_iff x.0 x.0),
  still_found x m m (ground (arith, h)) (entries_found m (ground (arith, h))),
)

updated-keys :
    (a b es : StringMap Version)
    → All (λ e. get a e.0 ≡ some e.1) es
    → count_updated es b ≡ count_keys (λ k. differ (get b k) (get a k)) es
unfolding count_updated count_keys
updated-keys a b [] h = refl
updated-keys a b (e ∷ es) h = ground (arith, h.0, updated-keys a b es h.1)

updated_lem :
    (old new : List Version)
    → count_updated (by_name new []) (by_name old [])
      ≡ count_names (λ k. differ (last_named old k) (last_named new k)) new
updated_lem old new =
    let a = by_name new [] in
    let b = by_name old [] in
    let unique : has_unique_keys a ≡ true =
      by_name_unique new [] (unfold has_unique_keys in refl) in
    let in_maps : String → Bool = λ k. differ (get b k) (get a k) in
    let in_lists : String → Bool = λ k. differ (last_named old k) (last_named new k) in
    let tests : in_maps ≡ in_lists = fun_ext (λ k. rw (get_last old k, get_last new k) refl) in
    updated-keys a b a (entries_found a unique)
    ∙ ap (λ q. count_keys q a) tests
    ∙ names_lem (λ k. differ (last_named old k) (last_named new k)) new

-- The first count of calculateVersionChanges is the number of different names among the new
-- versions that no old version has, the third the number of those among the old that no new version
-- has; the second is the number of those among the new for which the last old and the last new
-- version of the name have different commits. The new names are balanced by the old ones, less the
-- removed, plus the new, and no more names are updated than the old and the new versions share.
pub calculate_version_changes-balance :
    (old new : List Version)
    → let c = calculate_version_changes old new in
      let names = count_names (λ k. true) in
      (c.0 ≡ count_names (λ k. not (is_named old k)) new)
      × (c.2 ≡ count_names (λ k. not (is_named new k)) old)
      × (c.1 ≡ count_names (λ k. differ (last_named old k) (last_named new k)) new)
      × (names old + c.0 ≡ names new + c.2)
      × (c.1 + c.0 ≤ names new)
unfolding calculate_version_changes
calculate_version_changes-balance old new =
    let a = by_name old [] in
    let b = by_name new [] in
    let unique_a : has_unique_keys a ≡ true =
      by_name_unique old [] (unfold has_unique_keys in refl) in
    let unique_b : has_unique_keys b ≡ true =
      by_name_unique new [] (unfold has_unique_keys in refl) in
    let size_a : length a ≡ count_names (λ k. true) old =
      length-keys a ∙ names_lem (λ k. true) old in
    let size_b : length b ≡ count_names (λ k. true) new =
      length-keys b ∙ names_lem (λ k. true) new in
    let same = common_comm a b unique_a unique_b in
    (
      missing_lem new old,
      missing_lem old new,
      updated_lem old new,
      omega (arith, same, missing-common a b, missing-common b a, size_a, size_b),
      omega (arith, updated-common b a, missing-common b a, size_b),
    )
