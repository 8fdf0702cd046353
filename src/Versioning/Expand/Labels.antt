-- ===== src/Versioning/Expand/Labels.antt =====
-- The tags that ExpandRepositoriesWithVersions leaves in the maps of the repositories it returns.
use Prim.Native.String.{String}
use docbuilder.Common.{
  ℕ, Bool, zero, suc, ◌<◌, not, ◌≡◌, refl, ◌∙◌, sym, ap, Option, none, some, List, [], ◌∷◌, ◌++◌,
  arith, length, map, All,
}
use docbuilder.Common.Text.{StringMap, get, put, get-put}
use docbuilder.Versioning.{Version, Platform, is_branch, type_text}
use docbuilder.Versioning.Expand.{
  VersionedRepository, Store, TagWrite, put_all, write_tags, tags_address, with_tags, version_entry,
  store_entry, expand_versions,
}
use mathlib.Core.List.{append-nil, append_assoc}

-- m[k] in the map at an address, none for an address without a map
unfoldable pub tag_at : Store → ℕ → String → Option String
tag_at [] a k = none
tag_at (m ∷ store) zero k = get m k
tag_at (m ∷ store) (suc a) k = tag_at store a k

-- A tag of a repository
unfoldable pub tag_of : Store → Option ℕ → String → Option String
tag_of store none k = none
tag_of store (some a) k = tag_at store a k

abbrev tag_writes : String → Version → List TagWrite
tag_writes name v =
    ("version", v.display_name) ∷ ("version_type", type_text v.type) ∷ ("base_repo", name) ∷ []

get-writes :
    (name : String) (v : Version) (m : StringMap String)
    → get (put_all (tag_writes name v) m) "version" ≡ some v.display_name
get-writes name v m =
    get-put (put (put m "version" v.display_name) "version_type" (type_text v.type)) "base_repo"
      name "version"
    ∙ get-put (put m "version" v.display_name) "version_type" (type_text v.type) "version"
    ∙ get-put m "version" v.display_name "version"

write-end :
    (ws : List TagWrite) (store : Store) (m : StringMap String)
    → write_tags (length store) ws (store ++ (m ∷ [])) ≡ store ++ (put_all ws m ∷ [])
unfolding write_tags
write-end ws [] m = refl
write-end ws (n ∷ store) m = ap (λ t. n ∷ t) (write-end ws store m)

tag-end :
    (store : Store) (m : StringMap String) (rest : Store) (k : String)
    → tag_at (store ++ (m ∷ rest)) (length store) k ≡ get m k
unfolding tag_at
tag-end [] m rest k = refl
tag-end (n ∷ store) m rest k = tag-end store m rest k

store_entry-end :
    (repo : VersionedRepository) (v : Version) (store : Store)
    → repo.tags ≡ none
    → store_entry repo v store ≡ store ++ (put_all (tag_writes repo.name v) [] ∷ [])
unfolding store_entry tags_address with_tags
store_entry-end repo v store h = rw h (write-end (tag_writes repo.name v) store [])

-- The maps in front stay.
expand-end :
    (p : Platform) (repo : VersionedRepository) (vs : List Version) (store : Store)
    → repo.tags ≡ none
    → (new : Store) × ((expand_versions p repo vs store).1 ≡ store ++ new)
unfolding expand_versions
expand-end p repo [] store h = ([], sym (append-nil store))
expand-end p repo (v ∷ vs) store h =
    let m = put_all (tag_writes repo.name v) [] in
    let (new, e) = expand-end p repo vs (store_entry repo v store) h in
    (
      m ∷ new,
      e ∙ ap (λ t. t ++ new) (store_entry-end repo v store h) ∙ append_assoc store (m ∷ []) new,
    )

first_label :
    (p : Platform) (repo : VersionedRepository) (v : Version) (vs : List Version) (store : Store)
    → repo.tags ≡ none
    → tag_of
        (expand_versions p repo vs (store_entry repo v store)).1
        (some (tags_address repo.tags store))
        "version"
      ≡ some v.display_name
unfolding tag_of tags_address
first_label p repo v vs store h =
    let (new, e) = expand-end p repo vs (store_entry repo v store) h in
    let m = put_all (tag_writes repo.name v) [] in
    let final = (expand_versions p repo vs (store_entry repo v store)).1 in
    let parts : final ≡ store ++ (m ∷ new) =
      e ∙ ap (λ t. t ++ new) (store_entry-end repo v store h) ∙ append_assoc store (m ∷ []) new in
    ap (λ t. tag_at final (tags_address t store) "version") h
    ∙ ap (λ t. tag_at t (length store) "version") parts
    ∙ tag-end store m new "version"
    ∙ get-writes repo.name v []

-- The reference and the version of an entry, and of a version
abbrev pub of_entry : VersionedRepository → String × String × Bool
of_entry r = (r.branch, r.version, r.is_tag)

abbrev pub of_version : Version → String × String × Bool
of_version v = (v.name, v.display_name, not (is_branch v.type))

-- For a repository without tags of its own, there is one entry for each version, in their order, on
-- the branch or tag of that name and for that version, marked as a tag exactly when it is one; and
-- the tag "version" of each entry is its version.
pub expand_versions-labels :
    (p : Platform) (repo : VersionedRepository) (vs : List Version) (store : Store)
    → repo.tags ≡ none
    → let (repos, final) = expand_versions p repo vs store in
      (map of_entry repos ≡ map of_version vs)
      × All (λ r. tag_of final r.tags "version" ≡ some r.version) repos
unfolding expand_versions version_entry
expand_versions-labels p repo [] store h = (refl, tt)
expand_versions-labels p repo (v ∷ vs) store h =
    let rest = expand_versions-labels p repo vs (store_entry repo v store) h in
    (ap (λ t. of_version v ∷ t) rest.0, (first_label p repo v vs store h, rest.1))

length-write :
    (a : ℕ) (ws : List TagWrite) (store : Store) → length (write_tags a ws store) ≡ length store
unfolding write_tags
length-write a ws [] = refl
length-write zero ws (m ∷ store) = refl
length-write (suc a) ws (m ∷ store) = ap suc (length-write a ws store)

write-tag :
    (a : ℕ) (name : String) (v : Version) (store : Store)
    → a < length store
    → tag_at (write_tags a (tag_writes name v) store) a "version" ≡ some v.display_name
unfolding write_tags tag_at
write-tag a name v [] h = absurd (omega arith)
write-tag zero name v (m ∷ store) h = get-writes name v m
write-tag (suc a) name v (m ∷ store) h = write-tag a name v store (omega arith)

stays_in :
    (repo : VersionedRepository) (v : Version) (store : Store) (a : ℕ)
    → repo.tags ≡ some a
    → a < length store
    → a < length (store_entry repo v store)
unfolding store_entry tags_address with_tags
stays_in repo v store a h k =
    rw (h, tags_address, with_tags) (omega (arith, length-write a (tag_writes repo.name v) store))

last_label :
    (p : Platform) (repo : VersionedRepository) (vs : List Version) (v : Version) (store : Store)
    (a : ℕ)
    → repo.tags ≡ some a
    → a < length store
    → tag_at (expand_versions p repo (vs ++ (v ∷ [])) store).1 a "version" ≡ some v.display_name
unfolding expand_versions store_entry tags_address with_tags
last_label p repo [] v store a h k =
    rw (h, tags_address, with_tags) (write-tag a repo.name v store k)
last_label p repo (x ∷ vs) v store a h k =
    last_label p repo vs v (store_entry repo x store) a h (stays_in repo x store a h k)

same_label :
    (p : Platform) (repo : VersionedRepository) (vs : List Version) (store final : Store) (a : ℕ)
    (label : String)
    → repo.tags ≡ some a
    → tag_at final a "version" ≡ some label
    → All (λ r. tag_of final r.tags "version" ≡ some label) (expand_versions p repo vs store).0
unfolding expand_versions version_entry tag_of tags_address
same_label p repo [] store final a label h k = tt
same_label p repo (v ∷ vs) store final a label h k = (
  ap (λ t. tag_at final (tags_address t store) "version") h ∙ k,
  same_label p repo vs (store_entry repo v store) final a label h k,
)

-- The entries of a repository that has tags share its map: in the end the tag "version" of each of
-- them is the version that was expanded last.
pub expand_versions-shared :
    (p : Platform) (repo : VersionedRepository) (vs : List Version) (v : Version) (store : Store)
    (a : ℕ)
    → repo.tags ≡ some a
    → a < length store
    → let (repos, final) = expand_versions p repo (vs ++ (v ∷ [])) store in
      All (λ r. tag_of final r.tags "version" ≡ some v.display_name) repos
expand_versions-shared p repo vs v store a h k =
    same_label p repo (vs ++ (v ∷ [])) store (expand_versions p repo (vs ++ (v ∷ [])) store).1 a
      v.display_name h (last_label p repo vs v store a h k)
