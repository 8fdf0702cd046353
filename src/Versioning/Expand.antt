-- ===== src/Versioning/Expand.antt =====
-- internal/versioning/helpers.go: one repository for each version. The maps of tags stand in a store,
-- because a copied repository shares its map; a repository holds the address of its map, none if nil.
pub mod Entries
pub mod Labels
mod Tests
use Prim.Native.String.{String}
use docbuilder.Common.{
  ℕ, zero, suc, Bool, true, false, not, ◌||◌, Option, none, some, List, [], ◌∷◌, ◌++◌,
  if◌then◌else◌, length,
}
use docbuilder.Common.Text.{StringMap, put, str_eq}
use docbuilder.Config.{AuthConfig, VersioningConfig}
use docbuilder.Versioning.{
  VersionStrategy, default_only, branches, tags, branches_and_tags, unknown_strategy, VersionConfig,
  Version, is_branch, type_text, RemoteReference, VersionDiscoveryResult, Platform,
  new_version_manager, discover_versions,
}

-- config.Repository, with the fields that an expansion sets
pub record VersionedRepository : Type 0 where
  pub url : String
  pub name : String
  pub branch : String
  pub auth : Option AuthConfig
  pub paths : List String
  pub tags : Option ℕ
  pub version : String
  pub is_versioned : Bool
  pub is_tag : Bool

-- The maps of tags by their addresses
abbrev pub Store : Type 0
Store = List (StringMap String)

abbrev pub TagWrite : Type 0
TagWrite = String × String

-- m[k] = v for each pair in order, on the map at an address
abbrev pub put_all : List TagWrite → StringMap String → StringMap String
put_all [] m = m
put_all (w ∷ ws) m = put_all ws (put m w.0 w.1)

unfoldable pub write_tags : ℕ → List TagWrite → Store → Store
write_tags a ws [] = []
write_tags zero ws (m ∷ store) = put_all ws m ∷ store
write_tags (suc a) ws (m ∷ store) = m ∷ write_tags a ws store

-- make(map[string]string), if the repository has no map
unfoldable pub tags_address : Option ℕ → Store → ℕ
tags_address none store = length store
tags_address (some a) store = a

unfoldable pub with_tags : Option ℕ → Store → Store
with_tags none store = store ++ ([] ∷ [])
with_tags (some a) store = store

-- VersionStrategy(cfg.Versioning.Strategy)
unfoldable pub cast_strategy : String → VersionStrategy
cast_strategy s =
    if str_eq s "default_only"
    then default_only
    else if str_eq s "branches"
    then branches
    else if str_eq s "tags"
    then tags
    else if str_eq s "branches_and_tags"
    then branches_and_tags
    else unknown_strategy s

-- The VersionConfig of the loop
unfoldable pub expansion_config : VersioningConfig → VersionConfig
expansion_config v = record {
  strategy = cast_strategy v.strategy;
  default_branch_only = false;
  branch_patterns = v.branch_patterns;
  tag_patterns = v.tag_patterns;
  max_versions = v.max_versions_per_repo;
}

-- The entry of a version
unfoldable pub version_entry :
    Platform → VersionedRepository → Version → Store → VersionedRepository
version_entry p repo v store = record repo {
  name = p.join repo.name (p.join "-" v.display_name);
  branch = v.name;
  tags = some (tags_address repo.tags store);
  version = v.display_name;
  is_versioned = true;
  is_tag = not (is_branch v.type);
}

unfoldable pub store_entry : VersionedRepository → Version → Store → Store
store_entry repo v store =
    write_tags (tags_address repo.tags store)
      (("version", v.display_name)
        ∷ ("version_type", type_text v.type)
        ∷ ("base_repo", repo.name)
        ∷ [])
      (with_tags repo.tags store)

-- The loop over the versions of a repository
unfoldable pub expand_versions :
    Platform → VersionedRepository → List Version → Store → List VersionedRepository × Store
expand_versions p repo [] store = ([], store)
expand_versions p repo (v ∷ vs) store =
    let rest = expand_versions p repo vs (store_entry repo v store) in
    (version_entry p repo v store ∷ rest.0, rest.1)

-- One round of the loop over the repositories; a discovery that fails leaves the repository as it is.
unfoldable pub versions_of : Option VersionDiscoveryResult → List Version
versions_of none = []
versions_of (some r) = r.repository.versions

unfoldable pub expand_found :
    Platform → VersionedRepository → List Version → Store → List VersionedRepository × Store
expand_found p repo [] store = (repo ∷ [], store)
expand_found p repo (v ∷ vs) store = expand_versions p repo (v ∷ vs) store

-- What the git client lists for a repository, none if it fails
abbrev pub Client : Type 0
Client = String → Option AuthConfig → Option (List RemoteReference)

unfoldable pub expand_repository :
    Platform
    → Client
    → VersionConfig
    → VersionedRepository
    → Store
    → List VersionedRepository × Store
expand_repository p client c repo store =
    let found = discover_versions p repo.url c (client repo.url repo.auth) new_version_manager in
    expand_found p repo (versions_of found) store

unfoldable pub expand_all :
    Platform
    → Client
    → VersionConfig
    → List VersionedRepository
    → Store
    → List VersionedRepository × Store
expand_all p client c [] store = ([], store)
expand_all p client c (repo ∷ repos) store =
    let now = expand_repository p client c repo store in
    let rest = expand_all p client c repos now.1 in (now.0 ++ rest.0, rest.1)

-- ExpandRepositoriesWithVersions
unfoldable pub expand_repositories :
    Platform
    → Client
    → Option VersioningConfig
    → List VersionedRepository
    → Store
    → List VersionedRepository × Store
expand_repositories p client none repos store = (repos, store)
expand_repositories p client (some v) repos store =
    if not v.enabled || v.default_branch_only
    then (repos, store)
    else expand_all p client (expansion_config v) repos store
