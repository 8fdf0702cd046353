-- ===== src/Config/Defaults/Daemon.antt =====
-- internal/config/{defaults,composite_defaults}.go: the defaults of the daemon, and all appliers in
-- their order.
use docbuilder.Common.{Bool, true, false, ◌||◌, Option, none, some, map, if◌then◌else◌}
use docbuilder.Common.Int.{pos}
use docbuilder.Common.Text.{is_empty, str_eq}
use docbuilder.Config.{
  Library, BuildConfig, OutputConfig, BuildDebounceConfig, LinkVerificationConfig, HttpConfig,
  SyncConfig, StorageConfig, DaemonConfig, Config,
}
use docbuilder.Config.Defaults.{
  or_text, or_int, default_build, default_output, default_workspace, default_filtering,
  default_versioning, default_monitoring, default_repository,
}

abbrev or_true : Option Bool → Option Bool
or_true none = some true
or_true (some b) = some b

fill_debounce : BuildDebounceConfig → BuildDebounceConfig
fill_debounce d = record d {
  quiet_window = or_text "10s" d.quiet_window;
  max_delay = or_text "60s" d.max_delay;
  webhook_immediate = or_true d.webhook_immediate;
}

-- applyDaemonBuildDebounceDefaults
unfoldable pub default_debounce : Option BuildDebounceConfig → BuildDebounceConfig
unfolding fill_debounce
default_debounce none =
    fill_debounce (record { quiet_window = ""; max_delay = ""; webhook_immediate = none })
default_debounce (some d) = fill_debounce d

fill_links : LinkVerificationConfig → LinkVerificationConfig
fill_links v = record v {
  enabled = true;
  nats_url = or_text "nats://localhost:4222" v.nats_url;
  subject = or_text "docbuilder.links.broken" v.subject;
  kv_bucket = or_text "docbuilder-link-cache" v.kv_bucket;
  cache_ttl = or_text "24h" v.cache_ttl;
  cache_ttl_failures = or_text "1h" v.cache_ttl_failures;
  max_concurrent = or_int (pos 10) v.max_concurrent;
  request_timeout = or_text "10s" v.request_timeout;
  rate_limit_delay = or_text "100ms" v.rate_limit_delay;
  skip_edit_links = true;
  follow_redirects = true;
  max_redirects = or_int (pos 3) v.max_redirects;
}

-- The part of DaemonDefaultApplier.ApplyDefaults on link verification
unfoldable pub default_links : Option LinkVerificationConfig → LinkVerificationConfig
unfolding fill_links
default_links none = fill_links (record {
  enabled = false;
  nats_url = "";
  subject = "";
  kv_bucket = "";
  cache_ttl = "";
  cache_ttl_failures = "";
  max_concurrent = pos 0;
  request_timeout = "";
  rate_limit_delay = "";
  verify_external_only = false;
  skip_edit_links = false;
  follow_redirects = false;
  max_redirects = pos 0;
})
default_links (some v) = fill_links v

default_http : HttpConfig → HttpConfig
default_http h = record {
  docs_port = or_int (pos 8080) h.docs_port;
  webhook_port = or_int (pos 8081) h.webhook_port;
  admin_port = or_int (pos 8082) h.admin_port;
  livereload_port = or_int (pos 8083) h.livereload_port;
}

default_sync : SyncConfig → SyncConfig
default_sync s = record {
  schedule = or_text "0 */4 * * *" s.schedule;
  build_on_discovery = or_true s.build_on_discovery;
  concurrent_builds = or_int (pos 3) s.concurrent_builds;
  queue_size = or_int (pos 100) s.queue_size;
}

default_storage : OutputConfig → StorageConfig → StorageConfig
default_storage o s = record {
  state_file = or_text "./docbuilder-state.json" s.state_file;
  repo_cache_dir = or_text "./repositories" s.repo_cache_dir;
  output_dir = or_text o.directory s.output_dir;
}

-- DaemonDefaultApplier.ApplyDefaults: what it makes of the daemon's part, given the output's, ...
unfoldable pub default_daemon : OutputConfig → DaemonConfig → DaemonConfig
unfolding default_http default_sync default_storage
default_daemon o d = record d {
  http = default_http d.http;
  sync = default_sync d.sync;
  storage = default_storage o d.storage;
  build_debounce = some (default_debounce d.build_debounce);
  link_verification = some (default_links d.link_verification);
}

-- ... and of the build's.
unfoldable pub daemon_build : BuildConfig → BuildConfig
daemon_build b = record b {
  render_mode =
      if is_empty b.render_mode || str_eq b.render_mode "auto" then "always" else b.render_mode;
  skip_if_unchanged = true;
}

abbrev pub for_daemon : Option DaemonConfig → BuildConfig → BuildConfig
for_daemon none b = b
for_daemon (some d) b = daemon_build b

abbrev pub daemon_defaults : OutputConfig → Option DaemonConfig → Option DaemonConfig
daemon_defaults o none = none
daemon_defaults o (some d) = some (default_daemon o d)

-- CompositeDefaultApplier.ApplyDefaults, which never returns an error
unfoldable pub apply_defaults : Library → Config → Config
apply_defaults l c =
    let output = default_output c.output in
    record c {
      build = for_daemon c.daemon (default_workspace l output (default_build l c.build));
      title = or_text "Documentation Portal" c.title;
      output = output;
      daemon = daemon_defaults output c.daemon;
      filtering = some (default_filtering c.filtering);
      versioning = some (default_versioning l c.versioning);
      monitoring = some (default_monitoring l c.monitoring);
      repositories = map default_repository c.repositories;
    }
