-- ===== src/Versioning/Tests.antt =====
-- A repository with a few branches and tags, and the theorems about versions at it.
use docbuilder.Common.{
  ℕ, ◌+◌, ◌≤◌, true, false, not, ◌≡◌, refl, Option, none, some, List, [], ◌∷◌, arith, map,
}
use docbuilder.Common.Int.{pos}
use docbuilder.Common.Text.{put, str_eq, get}
use docbuilder.Versioning.{
  branches, branch, Version, VersionConfig, RemoteReference, RepositoryVersions, VersionManager,
  VersionDiscoveryResult, new_version_manager, git_references, discover_versions, cleaned,
  sort_versions, sift_up, exceeded, retained, split_loop, rebuilt, by_name, count_missing,
  count_updated, discovered, get_default_branch, first_candidate, has_branch, filter_references,
  convert_reference, is_included, matches_patterns, limited, cleanup_old_versions,
  calculate_version_changes,
}
use docbuilder.Versioning.Plain.{plain}
use docbuilder.Versioning.Cleanup.{IsRetained, cleanup_old_versions-IsRetained}
use docbuilder.Versioning.Names.{is_named, count_names}
use docbuilder.Versioning.Changes.{differ, last_named, calculate_version_changes-balance}
use Prim.Native.String.{String}

abbrev a_version : String → String → ℕ → Version
a_version name sha at = record {
  name = name;
  type = branch;
  display_name = name;
  is_default = str_eq name "main";
  path = name;
  commit_sha = sha;
  created_at = at;
  docs_path = "docs";
}

abbrev before_cleanup : List Version
before_cleanup =
    a_version "main" "a1" 10
    ∷ a_version "v1" "b2" 30
    ∷ a_version "v2" "c3" 40
    ∷ a_version "v0" "d4" 20
    ∷ []

abbrev at_most_two : VersionConfig
at_most_two = record {
  strategy = branches;
  default_branch_only = false;
  branch_patterns = [];
  tag_patterns = [];
  max_versions = pos 2;
}

abbrev entry : RepositoryVersions
entry = record {
  repository_url = "u";
  default_branch = "main";
  versions = before_cleanup;
  max_versions_limit = pos 2;
}

abbrev one_repository : VersionManager
one_repository = record { repositories = ("u", entry) ∷ [] }

-- The default version is the oldest, and kept; of the others the newest is.
keeps_default :
    cleanup_old_versions "u" at_most_two one_repository
    ≡ some (record {
      repositories =
          ("u", record entry { versions = a_version "main" "a1" 10 ∷ a_version "v2" "c3" 40 ∷ [] })
          ∷ [];
    })
unfolding cleanup_old_versions cleaned sort_versions sift_up exceeded retained split_loop rebuilt
    get put
keeps_default = refl

cleanup_old_versions-IsRetained_example :
    (after gone : List Version) × (cleanup_old_versions "u" at_most_two one_repository
      ≡ some (record one_repository {
        repositories = put one_repository.repositories "u" (record entry { versions = after });
      }))
    × IsRetained 2 before_cleanup after gone
unfolding get
cleanup_old_versions-IsRetained_example =
    cleanup_old_versions-IsRetained "u" at_most_two one_repository entry 2 refl refl (omega arith)

abbrev after_update : List Version
after_update = a_version "main" "a2" 50 ∷ a_version "v3" "e5" 60 ∷ []

calculate_version_changes-balance_example :
    let c = calculate_version_changes before_cleanup after_update in
    let names = count_names (λ k. true) in
    (c.0 ≡ count_names (λ k. not (is_named before_cleanup k)) after_update)
    × (c.2 ≡ count_names (λ k. not (is_named after_update k)) before_cleanup)
    × (c.1
        ≡ count_names
            (λ k. differ (last_named before_cleanup k) (last_named after_update k))
            after_update)
    × (names before_cleanup + c.0 ≡ names after_update + c.2)
    × (c.1 + c.0 ≤ names after_update)
calculate_version_changes-balance_example =
    calculate_version_changes-balance before_cleanup after_update

-- One new, one updated, three removed
changes_counted : calculate_version_changes before_cleanup after_update ≡ (1, 1, 3)
unfolding calculate_version_changes by_name count_missing count_updated get put
changes_counted = refl

abbrev remote : String → String → ℕ → RemoteReference
remote name ref at = record { name = name; ref_name = ref; hash = name; created_at = at }

abbrev listing : List RemoteReference
listing =
    remote "v1" "refs/heads/" 30
    ∷ remote "main" "refs/heads/" 10
    ∷ remote "pull" "refs/pull/" 5
    ∷ remote "v2" "refs/heads/" 40
    ∷ remote "t1" "refs/tags/" 35
    ∷ []

abbrev summary : Option VersionDiscoveryResult → Option (String × List String)
summary none = none
summary (some r) =
    some (r.repository.default_branch, map (λ (v : Version). v.name) r.repository.versions)

-- The two newest branches are the versions; the limit leaves the default branch out.
default_left_out :
    summary (discover_versions plain "u" at_most_two (some listing) new_version_manager)
    ≡ some ("main", "v2" ∷ "v1" ∷ [])
unfolding discover_versions discovered git_references get_default_branch first_candidate has_branch
    filter_references convert_reference is_included matches_patterns sort_versions sift_up limited
    exceeded new_version_manager get
default_left_out = refl
