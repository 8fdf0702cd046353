-- ===== src/Config.antt =====
-- internal/config: the decoded configuration, and what loading makes of it. Enumerations are the
-- strings that they are in the code. Fields that no modelled function reads or writes are left out:
-- those of Hugo but its title, of a forge's web addresses, of a repository's descriptions.
pub mod Enums
pub mod Slices
pub mod Normalize
pub mod Defaults
pub mod Validate
pub mod Load
mod Tests
use Prim.Native.String.{String}
use docbuilder.Common.{Bool, Option, List}
use docbuilder.Common.Int.{ℤ}

-- What the code calls outside the repository, and the string functions it uses: strings.TrimSpace,
-- strings.ToLower, filepath.Clean and Join, time.ParseDuration (in nanoseconds), and whether
-- gocron accepts a cron expression (a scheduler that cannot be made accepts none).
pub record Library : Type 0 where
  pub trim_space : String → String
  pub to_lower : String → String
  pub clean_path : String → String
  pub join_path : String → String → String
  pub parse_duration : String → Option ℤ
  pub accepts_cron : String → Bool

-- BuildConfig
pub record BuildConfig : Type 0 where
  pub clone_concurrency : ℤ
  pub clone_strategy : String
  pub namespace_forges : String
  pub shallow_depth : ℤ
  pub max_retries : ℤ
  pub retry_backoff : String
  pub retry_initial_delay : String
  pub retry_max_delay : String
  pub hard_reset_on_diverge : Bool
  pub workspace_dir : String
  pub skip_if_unchanged : Bool
  pub render_mode : String
  pub detect_deletions : Bool
  pub detect_deletions_specified : Bool
  pub shallow_depth_specified : Bool
  pub hard_reset_on_diverge_specified : Bool

-- OutputConfig
pub record OutputConfig : Type 0 where
  pub base_directory : String
  pub directory : String
  pub clean : Bool

-- BuildDebounceConfig
pub record BuildDebounceConfig : Type 0 where
  pub quiet_window : String
  pub max_delay : String
  pub webhook_immediate : Option Bool

-- LinkVerificationConfig
pub record LinkVerificationConfig : Type 0 where
  pub enabled : Bool
  pub nats_url : String
  pub subject : String
  pub kv_bucket : String
  pub cache_ttl : String
  pub cache_ttl_failures : String
  pub max_concurrent : ℤ
  pub request_timeout : String
  pub rate_limit_delay : String
  pub verify_external_only : Bool
  pub skip_edit_links : Bool
  pub follow_redirects : Bool
  pub max_redirects : ℤ

-- HTTPConfig
pub record HttpConfig : Type 0 where
  pub docs_port : ℤ
  pub webhook_port : ℤ
  pub admin_port : ℤ
  pub livereload_port : ℤ

-- SyncConfig
pub record SyncConfig : Type 0 where
  pub schedule : String
  pub concurrent_builds : ℤ
  pub queue_size : ℤ
  pub build_on_discovery : Option Bool

-- StorageConfig
pub record StorageConfig : Type 0 where
  pub state_file : String
  pub repo_cache_dir : String
  pub output_dir : String

-- DaemonConfig
pub record DaemonConfig : Type 0 where
  pub http : HttpConfig
  pub sync : SyncConfig
  pub storage : StorageConfig
  pub public_only : Bool
  pub build_debounce : Option BuildDebounceConfig
  pub link_verification : Option LinkVerificationConfig

-- FilteringConfig; of the required paths, a nil slice is `none`.
pub record FilteringConfig : Type 0 where
  pub required_paths : Option (List String)
  pub ignore_files : List String
  pub include_patterns : List String
  pub exclude_patterns : List String

-- VersioningConfig
pub record VersioningConfig : Type 0 where
  pub enabled : Bool
  pub strategy : String
  pub default_branch_only : Bool
  pub branch_patterns : List String
  pub tag_patterns : List String
  pub max_versions_per_repo : ℤ

-- MonitoringConfig
pub record MonitoringConfig : Type 0 where
  pub metrics_enabled : Bool
  pub metrics_path : String
  pub health_path : String
  pub level : String
  pub format : String

-- AuthConfig
pub record AuthConfig : Type 0 where
  pub kind : String
  pub username : String
  pub password : String
  pub token : String
  pub key_path : String

-- ForgeConfig; of its options, the value of "auto_discover" if it is a Boolean
pub record ForgeConfig : Type 0 where
  pub name : String
  pub kind : String
  pub organizations : List String
  pub groups : List String
  pub auto_discover : Bool
  pub auto_discover_option : Option Bool
  pub auth : Option AuthConfig

-- Repository
pub record Repository : Type 0 where
  pub url : String
  pub name : String
  pub branch : String
  pub auth : Option AuthConfig
  pub paths : List String

-- Config
pub record Config : Type 0 where
  pub version : String
  pub daemon : Option DaemonConfig
  pub build : BuildConfig
  pub forges : List ForgeConfig
  pub filtering : Option FilteringConfig
  pub versioning : Option VersioningConfig
  pub title : String
  pub monitoring : Option MonitoringConfig
  pub output : OutputConfig
  pub repositories : List Repository
