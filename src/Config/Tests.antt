-- ===== src/Config/Tests.antt =====
-- A configuration of one repository with a daemon, loaded, and the theorems about loading at it.
use Prim.Native.String.{String}
use text.Mathlib.TextEquality.{eq_iff}
use docbuilder.Common.{
  true, false, not, ◌&&◌, ◌≡◌, refl, none, some, List, [], ◌∷◌, arith, if◌then◌else◌,
}
use docbuilder.Common.Int.{ℤ, pos}
use docbuilder.Common.Text.{is_empty, str_eq, get, put}
use docbuilder.Config.{Library, DaemonConfig, Config}
use docbuilder.Config.Enums.{
  default_normalization, new_normalizer, normalize, retry_backoffs, log_formats,
  normalize_render_mode, normalize_namespacing_mode, normalize_clone_strategy,
  normalize_retry_backoff, normalize_versioning_strategy, normalize_log_level, normalize_log_format,
}
use docbuilder.Config.Normalize.{
  normalize_field, normalize_build_config, normalize_monitoring, normalize_versioning,
  normalize_output, normalize_filtering, normalize_config,
}
use docbuilder.Config.Slices.{normalize_string_slice}
use docbuilder.Config.Slices.Canonical.{has_trimmed, IsCanonical, normalize_string_slice_unordered}
use docbuilder.Config.Defaults.{
  default_build, default_output, default_workspace, default_filtering, default_versioning,
  default_monitoring, default_repository,
}
use docbuilder.Config.Defaults.Daemon.{
  default_debounce, default_links, default_daemon, daemon_build, apply_defaults,
}
use docbuilder.Config.Validate.{passed, one_of, validate_forges, validate_repositories}
use docbuilder.Config.Validate.Domains.{
  validate_build, validate_retry_delays, validate_daemon, validate_debounce, validate_window,
  check_window, check_order, check_delays, debounce_checked, validate_paths, validate_versioning,
  validate_config,
}
use docbuilder.Config.Load.{load, configure_retry, get_build_debounce_durations}
use docbuilder.Config.Load.Windows.{IsWindow, load-windows}
use docbuilder.Config.Load.Policies.{IsStated, load-configure_retry}
use docbuilder.Config.Load.Fallbacks.{known_or, format_of, stated_format, load-fallbacks}
use docbuilder.Debouncer.Settings.{new_build_debouncer}

-- A library for texts without space and upper case, and for the durations used here
abbrev plain : Library
plain = record {
  trim_space = λ s. s;
  to_lower = λ s. s;
  clean_path = λ s. s;
  join_path = λ a b. b;
  parse_duration = λ s. if str_eq s "1s" then some (pos 1000000000) else some (pos 30000000000);
  accepts_cron = λ s. true;
}

abbrev decoded : Config
decoded = record {
  version = "2.0";
  daemon = some (record {
    http = record {
      docs_port = pos 0;
      webhook_port = pos 0;
      admin_port = pos 0;
      livereload_port = pos 0;
    };
    sync = record {
      schedule = "";
      concurrent_builds = pos 0;
      queue_size = pos 0;
      build_on_discovery = none;
    };
    storage = record { state_file = ""; repo_cache_dir = ""; output_dir = "" };
    public_only = false;
    build_debounce = none;
    link_verification = none;
  });
  build = record {
    clone_concurrency = pos 0;
    clone_strategy = "";
    namespace_forges = "";
    shallow_depth = pos 0;
    max_retries = pos 0;
    retry_backoff = "";
    retry_initial_delay = "";
    retry_max_delay = "";
    hard_reset_on_diverge = false;
    workspace_dir = "";
    skip_if_unchanged = false;
    render_mode = "";
    detect_deletions = false;
    detect_deletions_specified = false;
    shallow_depth_specified = false;
    hard_reset_on_diverge_specified = false;
  };
  forges = [];
  filtering = none;
  versioning = none;
  title = "";
  monitoring = some (record {
    metrics_enabled = true;
    metrics_path = "";
    health_path = "";
    level = "";
    format = "";
  });
  output = record { base_directory = ""; directory = ""; clean = false };
  repositories =
      record {
        url = "https://example.com/api.git";
        name = "api";
        branch = "";
        auth = none;
        paths = [];
      }
      ∷ [];
}

abbrev loaded : Config
loaded = apply_defaults plain (normalize_config plain decoded).0

decoded_loads : load plain decoded ≡ passed loaded
unfolding load validate_config validate_forges validate_repositories validate_build
    validate_retry_delays check_delays validate_daemon debounce_checked validate_debounce
    validate_window check_window check_order validate_paths validate_versioning one_of
    apply_defaults default_build default_output default_workspace default_filtering
    default_versioning default_monitoring default_repository default_debounce default_links
    default_daemon daemon_build normalize_config normalize_build_config normalize_monitoring
    normalize_versioning normalize_output normalize_filtering normalize_field normalize_string_slice
    normalize_render_mode normalize_namespacing_mode normalize_clone_strategy
    normalize_retry_backoff normalize_versioning_strategy normalize_log_level normalize_log_format
    normalize new_normalizer default_normalization get put
decoded_loads = refl

all_names : (vs : List String) (s : String) → one_of vs s ≡ true → default_normalization plain s ≡ s
unfolding default_normalization
all_names vs s h = refl

load-configure_retry_example : IsStated plain loaded.build (configure_retry plain loaded.build)
load-configure_retry_example = load-configure_retry plain decoded loaded decoded_loads

load-fallbacks_example :
    (loaded.build.retry_backoff ≡ known_or plain retry_backoffs "fixed" "")
    × (format_of loaded.monitoring ≡ some (stated_format plain decoded.monitoring))
load-fallbacks_example =
    load-fallbacks plain (all_names retry_backoffs) (all_names log_formats) decoded loaded
      decoded_loads

abbrev loaded_daemon : DaemonConfig
loaded_daemon = default_daemon loaded.output (record {
  http = record {
    docs_port = pos 0;
    webhook_port = pos 0;
    admin_port = pos 0;
    livereload_port = pos 0;
  };
  sync = record {
    schedule = "";
    concurrent_builds = pos 0;
    queue_size = pos 0;
    build_on_discovery = none;
  };
  storage = record { state_file = ""; repo_cache_dir = ""; output_dir = "" };
  public_only = false;
  build_debounce = none;
  link_verification = none;
})

is_loaded : loaded.daemon ≡ some loaded_daemon
unfolding apply_defaults normalize_config
is_loaded = refl

load-windows_example :
    (quiet max : ℤ) × (get_build_debounce_durations plain loaded.daemon ≡ some (quiet, max))
    × IsWindow quiet
    × IsWindow max
    × (new_build_debouncer true
          (record { quiet_window = quiet; max_delay = max; poll_interval = pos 0 })
        ≡ some (record { quiet_window = quiet; max_delay = max; poll_interval = pos 250000000 }))
load-windows_example = load-windows plain decoded loaded loaded_daemon decoded_loads is_loaded

same_items :
    (z : String)
    → not (is_empty z) && has_trimmed plain ("b" ∷ "a" ∷ []) z
      ≡ not (is_empty z) && has_trimmed plain ("a" ∷ "b" ∷ "" ∷ "b" ∷ []) z
unfolding has_trimmed
same_items z = ground (arith, eq_iff "" z, eq_iff z "")

normalize_string_slice_unordered_example :
    ((normalize_string_slice plain "filtering.ignore_files" ("b" ∷ "a" ∷ []) []).0
      ≡ (normalize_string_slice plain "filtering.ignore_files" ("a" ∷ "b" ∷ "" ∷ "b" ∷ []) []).0)
    × IsCanonical plain
        ("b" ∷ "a" ∷ [])
        (normalize_string_slice plain "filtering.ignore_files" ("b" ∷ "a" ∷ []) []).0
normalize_string_slice_unordered_example =
    normalize_string_slice_unordered plain "filtering.ignore_files" ("b" ∷ "a" ∷ [])
      ("a" ∷ "b" ∷ "" ∷ "b" ∷ []) [] same_items
