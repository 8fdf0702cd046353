-- ===== src/Versioning.antt =====
-- internal/versioning/{types,manager,service}.go: which branches and tags of a repository are
-- versions of its documentation, and how many are kept. A time is a number. sort.Slice is taken as
-- the insertion sort that it runs on short slices. Log lines, locks and the times of discovery and
-- of modification are left out; matching, regular expressions and the case of letters are the platform's.
pub mod Sorting
pub mod Retention
pub mod Cleanup
pub mod Names
pub mod Changes
pub mod Included
pub mod Discovery
pub mod Expand
pub mod Plain
mod Tests
use Prim.Native.String.{String}
use docbuilder.Common.{
  ℕ, suc, ◌+◌, ◌-◌, Bool, true, false, not, ◌&&◌, ◌||◌, Option, none, some, List, [], ◌∷◌, ◌++◌,
  if◌then◌else◌, ltb, length, take,
}
use docbuilder.Common.Int.{ℤ, pos, negsuc}
use docbuilder.Common.Text.{StringMap, get, put, str_eq, is_empty}
use docbuilder.Config.{VersioningConfig}

-- VersionStrategy; `other_strategy` is any other text.
pub data VersionStrategy : Type 0 where
  default_only : VersionStrategy
  branches : VersionStrategy
  tags : VersionStrategy
  branches_and_tags : VersionStrategy
  unknown_strategy : String → VersionStrategy

-- VersionConfig
pub record VersionConfig : Type 0 where
  pub strategy : VersionStrategy
  pub default_branch_only : Bool
  pub branch_patterns : List String
  pub tag_patterns : List String
  pub max_versions : ℤ

-- VersionType
pub data VersionType : Type 0 where
  branch : VersionType
  tag : VersionType

-- Version
pub record Version : Type 0 where
  pub name : String
  pub type : VersionType
  pub display_name : String
  pub is_default : Bool
  pub path : String
  pub commit_sha : String
  pub created_at : ℕ
  pub docs_path : String

-- GitReference
pub record GitReference : Type 0 where
  pub name : String
  pub type : VersionType
  pub commit_sha : String
  pub created_at : ℕ

-- git.RemoteReference, as the code reads it
pub record RemoteReference : Type 0 where
  pub name : String
  pub ref_name : String
  pub hash : String
  pub created_at : ℕ

-- RepositoryVersions
pub record RepositoryVersions : Type 0 where
  pub repository_url : String
  pub default_branch : String
  pub versions : List Version
  pub max_versions_limit : ℤ

-- VersionDiscoveryResult
pub record VersionDiscoveryResult : Type 0 where
  pub repository : RepositoryVersions
  pub new_count : ℕ
  pub updated_count : ℕ
  pub removed_count : ℕ

-- DefaultVersionManager
pub record VersionManager : Type 0 where
  pub repositories : StringMap RepositoryVersions

-- NewVersionManager
unfoldable pub new_version_manager : VersionManager
new_version_manager = record { repositories = [] }

-- filepath.Match (none for a bad pattern), regexp, and the functions of strings that the code calls
pub record Platform : Type 0 where
  pub match_path : (pattern name : String) → Option Bool
  pub match_regexp : (pattern text : String) → Bool
  pub replace_regexp : (pattern text by : String) → String
  pub replace_all : (text old by : String) → String
  pub contains : (text part : String) → Bool
  pub has_prefix : (text prefix : String) → Bool
  pub to_lower : String → String
  pub upper_first : String → String
  pub trim : (text cutset : String) → String
  pub join : String → String → String

-- GetVersioningConfig
unfoldable pub strategy_of : String → VersionStrategy
strategy_of s =
    if str_eq s "branches_only"
    then branches
    else if str_eq s "tags_only"
    then tags
    else if str_eq s "branches_and_tags"
    then branches_and_tags
    else default_only

unfoldable pub get_versioning_config : Option VersioningConfig → VersionConfig
unfolding strategy_of
get_versioning_config none = record {
  strategy = default_only;
  default_branch_only = true;
  branch_patterns = "main" ∷ "master" ∷ [];
  tag_patterns = [];
  max_versions = pos 5;
}
get_versioning_config (some v) = record {
  strategy = strategy_of v.strategy;
  default_branch_only = v.default_branch_only;
  branch_patterns = v.branch_patterns;
  tag_patterns = v.tag_patterns;
  max_versions = v.max_versions_per_repo;
}

abbrev pub is_branch : VersionType → Bool
is_branch branch = true
is_branch tag = false

abbrev pub type_text : VersionType → String
type_text branch = "branch"
type_text tag = "tag"

-- getGitReferencesWithAuth, after the call of the git client
unfoldable pub git_reference : RemoteReference → VersionType → GitReference
git_reference r t = record {
  name = r.name;
  type = t;
  commit_sha = r.hash;
  created_at = r.created_at;
}

unfoldable pub git_references : Platform → List RemoteReference → List GitReference
unfolding git_reference
git_references p [] = []
git_references p (r ∷ rs) =
    let rest = git_references p rs in
    if p.has_prefix r.ref_name "refs/heads/"
    then git_reference r branch ∷ rest
    else if p.has_prefix r.ref_name "refs/tags/"
    then git_reference r tag ∷ rest
    else rest

-- getDefaultBranch
unfoldable pub has_branch : String → List GitReference → Bool
has_branch n [] = false
has_branch n (r ∷ rs) = is_branch r.type && str_eq r.name n || has_branch n rs

unfoldable pub first_branch : List GitReference → Option String
first_branch [] = none
first_branch (r ∷ rs) = let rest = first_branch rs in if is_branch r.type then some r.name else rest

unfoldable pub first_candidate : List String → List GitReference → Option String
unfolding has_branch first_branch
first_candidate [] rs = first_branch rs
first_candidate (c ∷ cs) rs =
    let rest = first_candidate cs rs in if has_branch c rs then some c else rest

unfoldable pub get_default_branch : List GitReference → Option String
unfolding first_candidate
get_default_branch rs = first_candidate ("main" ∷ "master" ∷ "trunk" ∷ []) rs

-- matchesPatterns
unfoldable pub matches_pattern : Platform → String → String → Bool
matches_pattern p name pattern = elim (p.match_path pattern name) [
  | none ↦ false
  | some true ↦ true
  | some false ↦
      p.contains pattern "*"
      && p.match_regexp (p.join "^" (p.join (p.replace_all pattern "*" ".*") "$")) name
]

unfoldable pub matches_any : Platform → String → List String → Bool
unfolding matches_pattern
matches_any p name [] = false
matches_any p name (pattern ∷ ps) = matches_pattern p name pattern || matches_any p name ps

unfoldable pub matches_patterns : Platform → String → List String → Bool
unfolding matches_any
matches_patterns p name [] = true
matches_patterns p name (pattern ∷ ps) = matches_any p name (pattern ∷ ps)

-- The switch of convertReferenceToVersion
unfoldable pub is_included : Platform → VersionConfig → String → GitReference → Bool
is_included p c default r = elim c.strategy [
  | default_only ↦ is_branch r.type && str_eq r.name default
  | branches ↦ is_branch r.type && matches_patterns p r.name c.branch_patterns
  | tags ↦ not (is_branch r.type) && matches_patterns p r.name c.tag_patterns
  | branches_and_tags ↦
      is_branch r.type && matches_patterns p r.name c.branch_patterns
      || not (is_branch r.type) && matches_patterns p r.name c.tag_patterns
  | unknown_strategy s ↦ false
]

-- generateDisplayName
unfoldable pub generate_display_name : Platform → String → VersionType → String
generate_display_name p name tag = name
generate_display_name p name branch =
    if str_eq name "main" || str_eq name "master"
    then "Latest"
    else if str_eq name "develop" || str_eq name "development"
    then "Development"
    else let spaced = p.replace_all (p.replace_all name "-" " ") "_" " " in
      if is_empty spaced then spaced else p.upper_first spaced

-- generateVersionPath
unfoldable pub generate_version_path : Platform → String → VersionType → String → String
generate_version_path p name t default =
    if is_branch t && str_eq name default
    then "latest"
    else p.trim (p.replace_regexp "-+" (p.replace_regexp "[^a-z0-9.-]" (p.to_lower name) "-") "-")
        "-"

-- convertReferenceToVersion
unfoldable pub convert_reference : Platform → VersionConfig → String → GitReference → Option Version
unfolding is_included
convert_reference p c default r =
    if not (is_included p c default r)
    then none
    else some (record {
      name = r.name;
      type = r.type;
      display_name = generate_display_name p r.name r.type;
      is_default = is_branch r.type && str_eq r.name default;
      path = generate_version_path p r.name r.type default;
      commit_sha = r.commit_sha;
      created_at = r.created_at;
      docs_path = "docs";
    })

-- filterAndConvertReferences
unfoldable pub filter_references :
    Platform → VersionConfig → String → List GitReference → List Version
filter_references p c default [] = []
filter_references p c default (r ∷ rs) =
    let rest = filter_references p c default rs in
    elim (convert_reference p c default r) [ none ↦ rest | some v ↦ v ∷ rest ]

-- sort.Slice by time of creation, newest first
unfoldable pub sift_up : Version → List Version → List Version
sift_up v [] = v ∷ []
sift_up v (x ∷ xs) =
    let moved = sift_up v xs in if ltb v.created_at x.created_at then x ∷ moved else v ∷ x ∷ xs

unfoldable pub sort_versions : List Version → List Version
sort_versions [] = []
sort_versions (v ∷ vs) = sift_up v (sort_versions vs)

-- config.MaxVersions, if it is positive and smaller than the number of versions
unfoldable pub exceeded : ℤ → ℕ → Option ℕ
exceeded (negsuc m) n = none
exceeded (pos m) n = if ltb 0 m && ltb m n then some m else none

-- calculateVersionChanges: the maps by name, and the three counts
unfoldable pub by_name : List Version → StringMap Version → StringMap Version
by_name [] m = m
by_name (v ∷ vs) m = by_name vs (put m v.name v)

unfoldable pub count_missing : StringMap Version → StringMap Version → ℕ
count_missing [] m = 0
count_missing (e ∷ es) m = (elim (get m e.0) [ none ↦ 1 | some o ↦ 0 ]) + count_missing es m

unfoldable pub count_updated : StringMap Version → StringMap Version → ℕ
count_updated [] m = 0
count_updated (e ∷ es) m =
    (elim (get m e.0) [ none ↦ 0 | some o ↦ if str_eq o.commit_sha e.1.commit_sha then 0 else 1 ])
    + count_updated es m

-- newCount, updatedCount, removedCount
unfoldable pub calculate_version_changes : List Version → List Version → ℕ × ℕ × ℕ
calculate_version_changes old new =
    let old_map = by_name old [] in
    let new_map = by_name new [] in
    (count_missing new_map old_map, count_updated new_map old_map, count_missing old_map new_map)

-- The versions up to the limit
unfoldable pub limited : ℤ → List Version → List Version
limited max vs = elim (exceeded max (length vs)) [ none ↦ vs | some m ↦ take m vs ]

-- DiscoverVersionsWithAuth, after the default branch is determined
unfoldable pub discovered :
    Platform
    → String
    → VersionConfig
    → VersionManager
    → List GitReference
    → String
    → VersionDiscoveryResult
discovered p url c m refs default =
    let versions = limited c.max_versions (sort_versions (filter_references p c default refs)) in
    let changes : ℕ × ℕ × ℕ = elim (get m.repositories url) [
      | none ↦ (length versions, 0, 0)
      | some existing ↦ calculate_version_changes existing.versions versions
    ] in
    record {
      repository = record {
        repository_url = url;
        default_branch = default;
        versions = versions;
        max_versions_limit = c.max_versions;
      };
      new_count = changes.0;
      updated_count = changes.1;
      removed_count = changes.2;
    }

-- DiscoverVersionsWithAuth: what the client listed is given, none if it failed. It reads the cache
-- and does not write it.
unfoldable pub discover_versions :
    Platform
    → String
    → VersionConfig
    → Option (List RemoteReference)
    → VersionManager
    → Option VersionDiscoveryResult
discover_versions p url c none m = none
discover_versions p url c (some listed) m =
    let refs = git_references p listed in
    elim (get_default_branch refs) [
      | none ↦ none
      | some default ↦ some (discovered p url c m refs default)
    ]

-- UpdateVersions
unfoldable pub update_versions : String → List Version → VersionManager → VersionManager
update_versions url vs m =
    let entry : RepositoryVersions = elim (get m.repositories url) [
      | none ↦ record {
        repository_url = url;
        default_branch = "";
        versions = vs;
        max_versions_limit = pos 0;
      }
      | some existing ↦ record existing { versions = vs }
    ] in
    record m { repositories = put m.repositories url entry }

-- The loop of CleanupOldVersions: the default version so far, and the others.
unfoldable pub split_loop :
    List Version → Option Version → List Version → Option Version × List Version
split_loop [] default others = (default, others)
split_loop (v ∷ vs) default others =
    split_loop vs (if v.is_default then some v else default)
      (if v.is_default then others else others ++ (v ∷ []))

-- What CleanupOldVersions reconstructs: the default version, and the others up to the limit.
unfoldable pub rebuilt : ℕ → Option Version → List Version → List Version
rebuilt max default others =
    let kept = if ltb (max - 1) (length others) then take (max - 1) others else others in
    elim default [ none ↦ kept | some d ↦ d ∷ kept ]

unfoldable pub retained : ℕ → List Version → List Version
retained max vs = let s = split_loop vs none [] in rebuilt max s.0 s.1

unfoldable pub cleaned : ℤ → List Version → List Version
cleaned max vs =
    let sorted = sort_versions vs in
    elim (exceeded max (length sorted)) [ none ↦ sorted | some m ↦ retained m sorted ]

-- CleanupOldVersions; none for a repository that is not found
unfoldable pub cleanup_old_versions :
    String → VersionConfig → VersionManager → Option VersionManager
cleanup_old_versions url c m = elim (get m.repositories url) [
  | none ↦ none
  | some rv ↦
      let entry = record rv { versions = cleaned c.max_versions rv.versions } in
      some (record m { repositories = put m.repositories url entry })
]
