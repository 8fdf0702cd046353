-- ===== src/Versioning/Expand/Tests.antt =====
-- A repository expanded into its versions, and the theorems about it.
use docbuilder.Common.{true, false, ◌≡◌, refl, inl, none, some, [], ◌∷◌, arith, map, All}
use docbuilder.Common.Int.{pos}
use docbuilder.Config.{VersioningConfig}
use docbuilder.Versioning.{Version, branch, tag}
use docbuilder.Versioning.Plain.{plain}
use docbuilder.Versioning.Expand.{
  VersionedRepository, Store, Client, expand_versions, expand_repositories,
}
use docbuilder.Versioning.Expand.Entries.{expand_repositories-unchanged}
use docbuilder.Versioning.Expand.Labels.{
  of_entry, of_version, tag_of, expand_versions-labels, expand_versions-shared,
}

abbrev api : VersionedRepository
api = record {
  url = "u";
  name = "api";
  branch = "main";
  auth = none;
  paths = "docs" ∷ [];
  tags = none;
  version = "";
  is_versioned = false;
  is_tag = false;
}

abbrev v1 : Version
v1 = record {
  name = "main";
  type = branch;
  display_name = "Latest";
  is_default = true;
  path = "latest";
  commit_sha = "a1";
  created_at = 20;
  docs_path = "docs";
}

abbrev v2 : Version
v2 = record v1 {
  name = "v2.0";
  type = tag;
  display_name = "v2.0";
  is_default = false;
  path = "v2.0";
}

abbrev old_tags : Store
old_tags = (("team", "core") ∷ []) ∷ []

expand_versions-labels_example :
    let (repos, final) = expand_versions plain api (v1 ∷ v2 ∷ []) old_tags in
    (map of_entry repos ≡ map of_version (v1 ∷ v2 ∷ []))
    × All (λ r. tag_of final r.tags "version" ≡ some r.version) repos
expand_versions-labels_example = expand_versions-labels plain api (v1 ∷ v2 ∷ []) old_tags refl

abbrev tagged : VersionedRepository
tagged = record api { tags = some 0 }

expand_versions-shared_example :
    let (repos, final) = expand_versions plain tagged (v1 ∷ v2 ∷ []) old_tags in
    All (λ r. tag_of final r.tags "version" ≡ some "v2.0") repos
expand_versions-shared_example =
    expand_versions-shared plain tagged (v1 ∷ []) v2 old_tags 0 refl (omega arith)

abbrev only_branches : VersioningConfig
only_branches = record {
  enabled = true;
  strategy = "branches_only";
  default_branch_only = false;
  branch_patterns = [];
  tag_patterns = [];
  max_versions_per_repo = pos 5;
}

abbrev one_branch : Client
one_branch url auth =
    some (record { name = "main"; ref_name = "refs/heads/"; hash = "a1"; created_at = 20 } ∷ [])

expand_repositories-unchanged_example :
    expand_repositories plain one_branch (some only_branches) (api ∷ []) [] ≡ (api ∷ [], [])
expand_repositories-unchanged_example =
    expand_repositories-unchanged plain one_branch only_branches (api ∷ []) [] (inl refl)
