-- ===== src/Versioning/Expand/Entries.antt =====
-- What ExpandRepositoriesWithVersions returns.
use Prim.Native.String.{String}
use docbuilder.Common.{
  zero, suc, not, ◌||◌, ◌≡◌, ◌⊎◌, refl, ◌∙◌, ap, Option, none, some, List, [], ◌∷◌, arith, length,
  Bool-cases, inl, inr,
}
use docbuilder.Common.Int.{ℤ, pos, negsuc}
use docbuilder.Config.{VersioningConfig}
use docbuilder.Versioning.{
  Version, VersionConfig, VersionManager, RemoteReference, GitReference, Platform, unknown_strategy,
  is_included, new_version_manager, discover_versions,
}
use docbuilder.Versioning.Discovery.{discover_versions-IsDiscovered, count_included, up_to}
use docbuilder.Versioning.Expand.{
  VersionedRepository, Store, Client, cast_strategy, expansion_config, versions_of, expand_found,
  expand_repository, expand_all, expand_repositories,
}

-- A strategy without a case includes nothing.
unknown-count :
    (p : Platform) (c : VersionConfig) (s d : String) (rs : List GitReference)
    → c.strategy ≡ unknown_strategy s
    → count_included p c d rs ≡ 0
unfolding count_included is_included
unknown-count p c s d [] h = refl
unknown-count p c s d (r ∷ rs) h = ground (arith, h, unknown-count p c s d rs)

no_versions : (vs : List Version) → length vs ≡ 0 → vs ≡ []
no_versions [] h = refl
no_versions (v ∷ vs) h = absurd (omega arith)

up_to-zero : (max : ℤ) → up_to max 0 ≡ 0
up_to-zero (pos zero) = refl
up_to-zero (pos (suc m)) = ground arith
up_to-zero (negsuc m) = refl

unknown-discover :
    (p : Platform) (url : String) (c : VersionConfig) (s : String)
    (listed : Option (List RemoteReference)) (m : VersionManager)
    → c.strategy ≡ unknown_strategy s
    → versions_of (discover_versions p url c listed m) ≡ []
unfolding versions_of
unknown-discover p url c s none m h = unfold discover_versions in refl
unknown-discover p url c s (some listed) m h =
    elim (discover_versions-IsDiscovered p url c listed m) [
      | inl fails ↦ rw (fails.0) refl
      | inr (r, is_r, d) ↦ rw is_r (
          no_versions r.repository.versions (
            d.size
            ∙ ap (up_to c.max_versions) (unknown-count p c s r.repository.default_branch _ h)
            ∙ up_to-zero c.max_versions))
    ]

unknown-expand_all :
    (p : Platform) (client : Client) (c : VersionConfig) (s : String)
    (repos : List VersionedRepository) (store : Store)
    → c.strategy ≡ unknown_strategy s
    → expand_all p client c repos store ≡ (repos, store)
unfolding expand_all expand_repository expand_found
unknown-expand_all p client c s [] store h = refl
unknown-expand_all p client c s (repo ∷ repos) store h =
    rw (unknown-discover p repo.url c s (client repo.url repo.auth) new_version_manager h)
      (rw (unknown-expand_all p client c s repos store h) refl)

-- When the configured strategy is "branches_only" or "tags_only", every repository is returned as it
-- is, without a version, whatever the git client lists and whichever the patterns and the limit are.
pub expand_repositories-unchanged :
    (p : Platform) (client : Client) (v : VersioningConfig) (repos : List VersionedRepository)
    (store : Store)
    → (v.strategy ≡ "branches_only") ⊎ (v.strategy ≡ "tags_only")
    → expand_repositories p client (some v) repos store ≡ (repos, store)
unfolding expand_repositories
expand_repositories-unchanged p client v repos store h =
    let c = expansion_config v in
    elim (Bool-cases (not v.enabled || v.default_branch_only)) [
      | inl off ↦ rw off refl
      | inr on ↦ rw on (elim h [
        | inl only_branches ↦ unknown-expand_all p client c "branches_only" repos store (
            unfold expansion_config in
            ap cast_strategy only_branches ∙ (unfold cast_strategy in refl))
        | inr only_tags ↦
            unknown-expand_all p client c "tags_only" repos store (
              unfold expansion_config in
              ap cast_strategy only_tags ∙ (unfold cast_strategy in refl))
      ])
    ]
