-- ===== src/Config/Load/Fallbacks.antt =====
-- What is loaded where the backoff mode or the log format is left out or is no known name.
use Prim.Native.String.{String}
use text.Mathlib.TextEquality.{eq_iff}
use mathlib.Core.Option.{some-injective}
use docbuilder.Common.{
  Bool, true, false, not, ◌≡◌, refl, ap, ◌∙◌, Option, none, some, List, [], arith, if◌then◌else◌,
}
use docbuilder.Common.Text.{is_empty, str_eq}
use docbuilder.Config.{Library, BuildConfig, MonitoringConfig, Config}
use docbuilder.Config.Slices.{Warning}
use docbuilder.Config.Enums.{
  default_normalization, normalize, new_normalizer, table, retry_backoffs, log_formats,
  normalize_retry_backoff, normalize_log_format,
}
use docbuilder.Config.Enums.Known.{AreNormal, normalize-table}
use docbuilder.Config.Normalize.{
  normalize_field, normalize_build_config, normalize_monitoring, normalize_config,
}
use docbuilder.Config.Defaults.{
  or_found, or_kept, default_build, default_output, default_monitoring, fill_monitoring,
}
use docbuilder.Config.Defaults.Daemon.{apply_defaults}
use docbuilder.Config.Validate.{one_of, passed, unsupported_version}
use docbuilder.Config.Validate.Passed.{validate_config-IsValid, unless-passed}
use docbuilder.Config.Load.{load}
use docbuilder.Config.Load.BuildDefaults.{default_backoff}

abbrev pub known_or : Library → List String → String → String → String
known_or l vs d raw =
    if one_of vs (default_normalization l raw) then default_normalization l raw else d

-- The log format of the part on monitoring, if there is one
abbrev pub format_of : Option MonitoringConfig → Option String
format_of none = none
format_of (some m) = some m.format

abbrev pub stated_format : Library → Option MonitoringConfig → String
stated_format l none = "json"
stated_format l (some m) = known_or l log_formats "text" m.format

module _ (l : Library) (vs : List String) (d : String) (normal : AreNormal l vs)
    (known : one_of vs d ≡ true) where
  known_or-known : (raw : String) → one_of vs (known_or l vs d raw) ≡ true
  known_or-known raw = ground (arith, known)

  known_or_kept : (s : String) → one_of vs s ≡ true → known_or l vs d s ≡ s
  known_or_kept s h = rw (normal s h, h) refl

  -- A text that was normalized is not changed again, ...
  normalize_again :
      (raw : String)
      → normalize l (new_normalizer l (table vs) d) (known_or l vs d raw) ≡ known_or l vs d raw
  normalize_again raw =
      normalize-table l vs d (known_or l vs d raw) normal
      ∙ known_or_kept (known_or l vs d raw) (known_or-known raw)

  -- ... and it is not empty, unless the empty text is a name.
  not_empty : one_of vs "" ≡ false → (raw : String) → is_empty (known_or l vs d raw) ≡ false
  not_empty h raw = go (known_or l vs d raw) (known_or-known raw)
    where
      go : (s : String) → one_of vs s ≡ true → is_empty s ≡ false
      go s k = ground (arith, h, k, eq_iff s "")

normalize_field_found :
    (field fallback found : String) (stated : Bool) (old : String) (ws : List Warning)
    → is_empty found ≡ false
    → (normalize_field field fallback found stated old ws).0 ≡ found
unfolding normalize_field
normalize_field_found field fallback found stated old ws h = rw h refl

or_found_settled : (d found s : String) → found ≡ s → is_empty s ≡ false → or_found d found s ≡ s
or_found_settled d found s same h = ground (arith, same, h)

module _ (l : Library) (backoffs : AreNormal l retry_backoffs)
    (formats : AreNormal l log_formats) where
  fixed_known : one_of retry_backoffs "fixed" ≡ true
  fixed_known = unfold one_of in refl

  text_known : one_of log_formats "text" ≡ true
  text_known = unfold one_of in refl

  normalized_backoff :
      (c : Config)
      → (normalize_config l c).0.build.retry_backoff
        ≡ known_or l retry_backoffs "fixed" c.build.retry_backoff
  unfolding normalize_config normalize_build_config normalize_retry_backoff
  normalized_backoff c =
      let found = normalize-table l retry_backoffs "fixed" c.build.retry_backoff backoffs in
      normalize_field_found "build.retry_backoff" "fixed" _ _ c.build.retry_backoff _ (
        ap is_empty found
        ∙ not_empty l retry_backoffs "fixed" backoffs fixed_known (unfold one_of in refl)
            c.build.retry_backoff)
      ∙ found

  default_backoff_settled :
      (b : BuildConfig) (raw : String)
      → b.retry_backoff ≡ known_or l retry_backoffs "fixed" raw
      → (default_build l b).retry_backoff ≡ known_or l retry_backoffs "fixed" raw
  unfolding default_build normalize_retry_backoff
  default_backoff_settled b raw h =
      or_found_settled "linear" (normalize_retry_backoff l b.retry_backoff) b.retry_backoff
        (rw h (normalize_again l retry_backoffs "fixed" backoffs fixed_known raw))
        (ap is_empty h
          ∙ not_empty l retry_backoffs "fixed" backoffs fixed_known (unfold one_of in refl) raw)
      ∙ h

  full_backoff :
      (c : Config)
      → (apply_defaults l (normalize_config l c).0).build.retry_backoff
        ≡ known_or l retry_backoffs "fixed" c.build.retry_backoff
  unfolding apply_defaults
  full_backoff c =
      let d = (normalize_config l c).0 in
      default_backoff l (default_output d.output) d.daemon (default_build l d.build)
      ∙ default_backoff_settled d.build c.build.retry_backoff (normalized_backoff c)

  normalized_format :
      (m : MonitoringConfig) (ws : List Warning)
      → format_of (normalize_monitoring l (some m) ws).0
        ≡ some (known_or l log_formats "text" m.format)
  unfolding normalize_monitoring normalize_log_format
  normalized_format m ws =
      let found = normalize-table l log_formats "text" m.format formats in
      ap some (
        normalize_field_found "monitoring.logging.format" "text" _ _ m.format _ (
          ap is_empty found
          ∙ not_empty l log_formats "text" formats text_known (unfold one_of in refl) m.format)
        ∙ found)

  or_kept_settled : (d found s : String) → found ≡ s → is_empty s ≡ false → or_kept d found s ≡ s
  or_kept_settled d found s same h = ground (arith, same, h)

  default_format_settled :
      (o : Option MonitoringConfig) (raw : String)
      → format_of o ≡ some (known_or l log_formats "text" raw)
      → (default_monitoring l o).format ≡ known_or l log_formats "text" raw
  unfolding default_monitoring fill_monitoring normalize_log_format
  default_format_settled none raw h = absurd (cc)
  default_format_settled (some m) raw h =
      let same : m.format ≡ known_or l log_formats "text" raw = some-injective _ _ h in
      or_kept_settled "json" (normalize_log_format l m.format) m.format
        (rw same (normalize_again l log_formats "text" formats text_known raw))
        (ap is_empty same
          ∙ not_empty l log_formats "text" formats text_known (unfold one_of in refl) raw)
      ∙ same

  full_format :
      (c : Config)
      → format_of (apply_defaults l (normalize_config l c).0).monitoring
        ≡ some (stated_format l c.monitoring)
  unfolding apply_defaults normalize_config
  full_format c = go c.monitoring (normalize_build_config l c.build []).1
    where
      go :
          (o : Option MonitoringConfig) (ws : List Warning)
          → some (default_monitoring l (normalize_monitoring l o ws).0).format
            ≡ some (stated_format l o)
      go none ws = unfold normalize_monitoring default_monitoring fill_monitoring in refl
      go (some m) ws = ap some (
          default_format_settled (normalize_monitoring l (some m) ws).0 m.format
            (normalized_format m ws))

  -- What is loaded, for a library that leaves the known names as they are: the backoff mode is the
  -- one named, up to case and space, and "fixed" where it is left out or unknown; the log format is
  -- the one named, "text" where the part on monitoring leaves it out or names none that is known, and
  -- "json" only where that part is missing.
  pub load-fallbacks :
      (c result : Config)
      → load l c ≡ passed result
      → (result.build.retry_backoff ≡ known_or l retry_backoffs "fixed" c.build.retry_backoff)
        × (format_of result.monitoring ≡ some (stated_format l c.monitoring))
  unfolding load
  load-fallbacks c result h =
      let (versioned, h1) =
        unless-passed (not (str_eq c.version "2.0")) unsupported_version _ result h in
      let valid = validate_config-IsValid l (apply_defaults l (normalize_config l c).0) result h1 in
      (
        ap (λ t. t.build.retry_backoff) valid.unchanged ∙ full_backoff c,
        ap (λ t. format_of t.monitoring) valid.unchanged ∙ full_format c,
      )
