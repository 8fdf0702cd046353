-- ===== src/Config/Defaults.antt =====
-- internal/config/{defaults,composite_defaults}.go: the appliers of defaults, domain by domain.
pub mod Daemon
use Prim.Native.String.{String}
use docbuilder.Common.{
  ℕ, Bool, true, false, not, ◌&&◌, ◌||◌, Option, none, some, List, [], ◌∷◌, map, if◌then◌else◌,
  ◌==◌,
}
use docbuilder.Common.Int.{ℤ, pos, is_neg, is_pos}
use docbuilder.Common.Text.{is_empty, str_eq}
use docbuilder.Config.{
  Library, BuildConfig, OutputConfig, FilteringConfig, VersioningConfig, MonitoringConfig,
  Repository, Config,
}
use docbuilder.Config.Enums.{
  normalize_render_mode, normalize_namespacing_mode, normalize_clone_strategy,
  normalize_retry_backoff, normalize_versioning_strategy, normalize_log_level, normalize_log_format,
}

-- if s == "" { s = d }
abbrev pub or_text : String → String → String
or_text d s = if is_empty s then d else s

-- if n == 0 { n = d }
abbrev pub or_int : ℤ → ℤ → ℤ
or_int d (pos n) = if n == 0 then d else pos n
or_int d n = n

-- An enumerated field whose text, if it has one, is normalized to `found`, and else is `d`
abbrev pub or_found : String → String → String → String
or_found d found s = if is_empty s then d else or_text d found

abbrev at_least_zero : ℤ → ℤ
at_least_zero n = if is_neg n then pos 0 else n

-- BuildDefaultApplier.ApplyDefaults
unfoldable pub default_build : Library → BuildConfig → BuildConfig
default_build l b =
    let depth = at_least_zero b.shallow_depth in
    record b {
      clone_concurrency = if is_pos b.clone_concurrency then b.clone_concurrency else pos 4;
      render_mode = or_found "auto" (normalize_render_mode l b.render_mode) b.render_mode;
      namespace_forges =
          or_found "auto" (normalize_namespacing_mode l b.namespace_forges) b.namespace_forges;
      shallow_depth = if b.shallow_depth_specified then depth else or_int (pos 1) depth;
      detect_deletions = b.detect_deletions || not b.detect_deletions_specified;
      hard_reset_on_diverge = b.hard_reset_on_diverge || not b.hard_reset_on_diverge_specified;
      clone_strategy =
          or_found "fresh" (normalize_clone_strategy l b.clone_strategy) b.clone_strategy;
      max_retries = or_int (pos 2) (at_least_zero b.max_retries);
      retry_backoff = or_found "linear" (normalize_retry_backoff l b.retry_backoff) b.retry_backoff;
      retry_initial_delay = or_text "1s" b.retry_initial_delay;
      retry_max_delay = or_text "30s" b.retry_max_delay;
    }

-- OutputDefaultApplier.ApplyDefaults, on the two parts that it changes
unfoldable pub default_output : OutputConfig → OutputConfig
default_output o = record o { directory = or_text "./site" o.directory; clean = true }

unfoldable pub default_workspace : Library → OutputConfig → BuildConfig → BuildConfig
default_workspace l o b =
    if not (is_empty o.base_directory) && is_empty b.workspace_dir
    then record b { workspace_dir = l.join_path o.base_directory "workspace" }
    else b

or_paths : Option (List String) → List String
or_paths none = "docs" ∷ []
or_paths (some paths) = paths

abbrev or_list : List String → List String → List String
or_list d [] = d
or_list d (x ∷ xs) = x ∷ xs

fill_filtering : FilteringConfig → FilteringConfig
unfolding or_paths
fill_filtering f = record f {
  required_paths = some (or_paths f.required_paths);
  ignore_files = or_list (".docignore" ∷ []) f.ignore_files;
}

-- FilteringDefaultApplier.ApplyDefaults
unfoldable pub default_filtering : Option FilteringConfig → FilteringConfig
unfolding fill_filtering
default_filtering none = fill_filtering (record {
  required_paths = none;
  ignore_files = [];
  include_patterns = [];
  exclude_patterns = [];
})
default_filtering (some f) = fill_filtering f

-- An invalid strategy is kept, for the validation to report.
chosen_strategy : Library → String → String
chosen_strategy l s =
    if is_empty s then "branches_and_tags" else or_text s (normalize_versioning_strategy l s)

fill_versioning : Library → VersioningConfig → VersioningConfig
unfolding chosen_strategy
fill_versioning l v = record v {
  enabled = v.enabled || not (is_empty v.strategy);
  strategy = chosen_strategy l v.strategy;
  max_versions_per_repo = or_int (pos 10) v.max_versions_per_repo;
}

-- VersioningDefaultApplier.ApplyDefaults
unfoldable pub default_versioning : Library → Option VersioningConfig → VersioningConfig
unfolding fill_versioning
default_versioning l none = fill_versioning l (record {
  enabled = false;
  strategy = "";
  default_branch_only = false;
  branch_patterns = [];
  tag_patterns = [];
  max_versions_per_repo = pos 0;
})
default_versioning l (some v) = fill_versioning l v

-- A text without a normalized value is kept.
abbrev pub or_kept : String → String → String → String
or_kept d found s = if is_empty s then d else or_text s found

unfoldable pub fill_monitoring : Library → MonitoringConfig → MonitoringConfig
fill_monitoring l m = record m {
  metrics_path = or_text "/metrics" m.metrics_path;
  health_path = or_text "/health" m.health_path;
  level = or_kept "info" (normalize_log_level l m.level) m.level;
  format = or_kept "json" (normalize_log_format l m.format) m.format;
}

-- MonitoringDefaultApplier.ApplyDefaults
unfoldable pub default_monitoring : Library → Option MonitoringConfig → MonitoringConfig
unfolding fill_monitoring
default_monitoring l none = fill_monitoring l (record {
  metrics_enabled = false;
  metrics_path = "";
  health_path = "";
  level = "";
  format = "";
})
default_monitoring l (some m) = fill_monitoring l m

-- RepositoryDefaultApplier.ApplyDefaults, on one repository
unfoldable pub default_repository : Repository → Repository
default_repository r = record r {
  paths = or_list ("docs" ∷ []) r.paths;
  branch = or_text "main" r.branch;
}
