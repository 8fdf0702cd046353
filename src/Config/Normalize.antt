-- ===== src/Config/Normalize.antt =====
-- internal/config/normalize*.go: the pass that makes values canonical, with its warnings.
use Prim.Native.String.{String}
use docbuilder.Common.{
  Bool, not, ◌&&◌, ◌||◌, Option, none, some, List, [], ◌∷◌, ◌++◌, if◌then◌else◌,
}
use docbuilder.Common.Int.{ℤ, pos, is_neg}
use docbuilder.Common.Text.{is_empty, str_eq}
use docbuilder.Config.{
  Library, BuildConfig, OutputConfig, FilteringConfig, VersioningConfig, MonitoringConfig, Config,
}
use docbuilder.Config.Slices.{
  Warning, warn_changed, warn_unknown, warn_invalid_strategy, warn_same_directory, Warned,
  warned_if, trim_string_slice, normalize_string_slice,
}
use docbuilder.Config.Enums.{
  normalize_render_mode, normalize_namespacing_mode, normalize_clone_strategy,
  normalize_retry_backoff, normalize_versioning_strategy, normalize_log_level, normalize_log_format,
}

-- An enumerated field: `found` is its normalized value, `stated` whether a text without one is
-- reported and replaced by `fallback`.
unfoldable pub normalize_field :
    (field fallback found : String) (stated : Bool) → String → List Warning → Warned String
unfolding warned_if
normalize_field field fallback found stated old ws =
    if not (is_empty found)
    then (found, warned_if (not (str_eq old found)) (warn_changed field old found) ws)
    else if stated
    then (fallback, ws ++ (warn_unknown field old fallback ∷ []))
    else (old, ws)

abbrev at_least_zero : ℤ → ℤ
at_least_zero n = if is_neg n then pos 0 else n

-- strings.TrimSpace(s) != ""
is_stated : Library → String → Bool
is_stated l s = not (is_empty (l.trim_space s))

-- normalizeBuildConfig
unfoldable pub normalize_build_config : Library → BuildConfig → List Warning → Warned BuildConfig
unfolding is_stated
normalize_build_config l b ws =
    let (render_mode, ws1) =
      normalize_field "build.render_mode" "auto" (normalize_render_mode l b.render_mode)
        (is_stated l b.render_mode) b.render_mode ws in
    let (namespace_forges, ws2) =
      normalize_field "build.namespace_forges" "auto"
        (normalize_namespacing_mode l b.namespace_forges) (is_stated l b.namespace_forges)
        b.namespace_forges ws1 in
    let (clone_strategy, ws3) =
      normalize_field "build.clone_strategy" "fresh" (normalize_clone_strategy l b.clone_strategy)
        (is_stated l b.clone_strategy) b.clone_strategy ws2 in
    let (retry_backoff, ws4) =
      normalize_field "build.retry_backoff" "fixed" (normalize_retry_backoff l b.retry_backoff)
        (is_stated l b.retry_backoff) b.retry_backoff ws3 in
    (
      record b {
        render_mode = render_mode;
        namespace_forges = namespace_forges;
        clone_strategy = clone_strategy;
        clone_concurrency = at_least_zero b.clone_concurrency;
        shallow_depth = at_least_zero b.shallow_depth;
        retry_backoff = retry_backoff;
      },
      ws4,
    )

-- normalizeMonitoring
unfoldable pub normalize_monitoring :
    Library → Option MonitoringConfig → List Warning → Warned (Option MonitoringConfig)
normalize_monitoring l none ws = (none, ws)
normalize_monitoring l (some m) ws =
    let (level, ws1) =
      normalize_field "monitoring.logging.level" "info" (normalize_log_level l m.level)
        (not (is_empty m.level)) m.level ws in
    let (format, ws2) =
      normalize_field "monitoring.logging.format" "text" (normalize_log_format l m.format)
        (not (is_empty m.format)) m.format ws1 in
    (some (record m { level = level; format = format }), ws2)

normalize_strategy : Library → String → List Warning → Warned String
unfolding warned_if
normalize_strategy l old ws =
    let found = normalize_versioning_strategy l old in
    if not (is_empty found)
    then (
      found,
      warned_if (not (str_eq old found)) (warn_changed "versioning.strategy" old found) ws,
    )
    else (old, warned_if (not (is_empty old)) (warn_invalid_strategy old) ws)

-- normalizeVersioning
unfoldable pub normalize_versioning :
    Library → Option VersioningConfig → List Warning → Warned (Option VersioningConfig)
unfolding normalize_strategy
normalize_versioning l none ws = (none, ws)
normalize_versioning l (some v) ws =
    let (strategy, ws1) = normalize_strategy l v.strategy ws in
    (
      some (record v {
        strategy = strategy;
        max_versions_per_repo = at_least_zero v.max_versions_per_repo;
        branch_patterns = trim_string_slice l v.branch_patterns;
        tag_patterns = trim_string_slice l v.tag_patterns;
      }),
      ws1,
    )

-- normalizeOutput
unfoldable pub normalize_output : Library → OutputConfig → List Warning → Warned OutputConfig
normalize_output l o ws =
    let cleaned = l.clean_path o.directory in
    if is_empty o.directory || str_eq cleaned o.directory then (o, ws) else (
      record o { directory = cleaned },
      ws ++ (warn_changed "output.directory" o.directory cleaned ∷ []),
    )

required : Library → Option (List String) → List Warning → Warned (Option (List String))
required l none ws = (none, ws)
required l (some paths) ws =
    let (out, ws1) = normalize_string_slice l "filtering.required_paths" paths ws in (some out, ws1)

-- normalizeFiltering
unfoldable pub normalize_filtering :
    Library → Option FilteringConfig → List Warning → Warned (Option FilteringConfig)
unfolding required
normalize_filtering l none ws = (none, ws)
normalize_filtering l (some f) ws =
    let (required_paths, ws1) = required l f.required_paths ws in
    let (ignore_files, ws2) =
      normalize_string_slice l "filtering.ignore_files" f.ignore_files ws1 in
    let (include_patterns, ws3) =
      normalize_string_slice l "filtering.include_patterns" f.include_patterns ws2 in
    let (exclude_patterns, ws4) =
      normalize_string_slice l "filtering.exclude_patterns" f.exclude_patterns ws3 in
    (
      some (record {
        required_paths = required_paths;
        ignore_files = ignore_files;
        include_patterns = include_patterns;
        exclude_patterns = exclude_patterns;
      }),
      ws4,
    )

-- normalizeCrossDomain, which only warns
unfoldable pub normalize_cross_domain : Library → Config → List Warning → List Warning
unfolding warned_if
normalize_cross_domain l c ws =
    let workspace = l.clean_path c.build.workspace_dir in
    let output = l.clean_path c.output.directory in
    warned_if
      (not (is_empty c.build.workspace_dir)
        && not (is_empty c.output.directory)
        && str_eq workspace output)
      (warn_same_directory workspace output) ws

-- NormalizeConfig, of a configuration that is not nil
unfoldable pub normalize_config : Library → Config → Warned Config
normalize_config l c =
    let (build, ws1) = normalize_build_config l c.build [] in
    let (monitoring, ws2) = normalize_monitoring l c.monitoring ws1 in
    let (versioning, ws3) = normalize_versioning l c.versioning ws2 in
    let (output, ws4) = normalize_output l c.output ws3 in
    let (filtering, ws5) = normalize_filtering l c.filtering ws4 in
    let normalized : Config = record c {
      build = build;
      monitoring = monitoring;
      versioning = versioning;
      output = output;
      filtering = filtering;
    } in
    (normalized, normalize_cross_domain l normalized ws5)
