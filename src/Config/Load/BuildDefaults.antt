-- ===== src/Config/Load/BuildDefaults.antt =====
-- What the validation never has to refuse, once the defaults are applied.
use Prim.Native.String.{String}
use text.Mathlib.TextEquality.{eq_iff}
use docbuilder.Common.{true, false, ◌≡◌, refl, ap, ◌∙◌, Option, none, some, List, ◌∷◌, arith}
use docbuilder.Common.Int.{is_neg}
use docbuilder.Config.{Library, BuildConfig, OutputConfig, DaemonConfig, Config}
use docbuilder.Config.Enums.{
  retry_backoffs, clone_strategies, normalize_retry_backoff, normalize_clone_strategy,
}
use docbuilder.Config.Enums.Known.{normalize-one_of}
use docbuilder.Config.Defaults.{or_found, default_build, default_output, default_workspace}
use docbuilder.Config.Defaults.Daemon.{daemon_build, for_daemon, apply_defaults}
use docbuilder.Config.Validate.{one_of, and_then, ok}
use docbuilder.Config.Validate.Domains.{validate_build, validate_retry_delays}

-- The defaults of the daemon and of the workspace leave the fields alone that are validated.
record AgreesOn (a b : BuildConfig) : Type 0 where
  backoff : a.retry_backoff ≡ b.retry_backoff
  strategy : a.clone_strategy ≡ b.clone_strategy
  retries : a.max_retries ≡ b.max_retries

later_defaults-AgreesOn :
    (l : Library) (o : OutputConfig) (d : Option DaemonConfig) (b : BuildConfig)
    → AgreesOn (for_daemon d (default_workspace l o b)) b
unfolding default_workspace daemon_build
later_defaults-AgreesOn l o none b = record {
  backoff = ground arith;
  strategy = ground arith;
  retries = ground arith;
}
later_defaults-AgreesOn l o (some d) b = record {
  backoff = ground arith;
  strategy = ground arith;
  retries = ground arith;
}

pub default_retries :
    (l : Library) (o : OutputConfig) (d : Option DaemonConfig) (b : BuildConfig)
    → (for_daemon d (default_workspace l o b)).max_retries ≡ b.max_retries
default_retries l o d b = (later_defaults-AgreesOn l o d b).retries

pub default_backoff :
    (l : Library) (o : OutputConfig) (d : Option DaemonConfig) (b : BuildConfig)
    → (for_daemon d (default_workspace l o b)).retry_backoff ≡ b.retry_backoff
default_backoff l o d b = (later_defaults-AgreesOn l o d b).backoff

or_found-one_of :
    (vs : List String) (d found s : String)
    → one_of vs d ≡ true
    → one_of ("" ∷ vs) found ≡ true
    → one_of vs (or_found d found s) ≡ true
unfolding one_of
or_found-one_of vs d found s h k = ground (arith, h, k, eq_iff "" found)

backoff_known :
    (l : Library) (b : BuildConfig) → one_of retry_backoffs (default_build l b).retry_backoff ≡ true
unfolding default_build
backoff_known l b =
    or_found-one_of retry_backoffs "linear" (normalize_retry_backoff l b.retry_backoff)
      b.retry_backoff linear_known
      (from_fixed (normalize_retry_backoff l b.retry_backoff) (
        unfold normalize_retry_backoff in
        normalize-one_of l retry_backoffs "fixed" b.retry_backoff))
  where
    linear_known : one_of retry_backoffs "linear" ≡ true
    linear_known = unfold one_of in refl

    from_fixed :
        (v : String)
        → one_of ("fixed" ∷ retry_backoffs) v ≡ true
        → one_of ("" ∷ retry_backoffs) v ≡ true
    from_fixed v h = unfold one_of in ground (arith, h)

strategy_known :
    (l : Library) (b : BuildConfig)
    → one_of clone_strategies (default_build l b).clone_strategy ≡ true
unfolding default_build
strategy_known l b =
    or_found-one_of clone_strategies "fresh" (normalize_clone_strategy l b.clone_strategy)
      b.clone_strategy fresh_known
      (unfold normalize_clone_strategy in normalize-one_of l clone_strategies "" b.clone_strategy)
  where
    fresh_known : one_of clone_strategies "fresh" ≡ true
    fresh_known = unfold one_of in refl

retries_not_negative :
    (l : Library) (b : BuildConfig) → is_neg (default_build l b).max_retries ≡ false
unfolding default_build
retries_not_negative l b = ground arith

check_unless :
    (l : Library) (b : BuildConfig)
    → one_of retry_backoffs b.retry_backoff ≡ true
    → one_of clone_strategies b.clone_strategy ≡ true
    → is_neg b.max_retries ≡ false
    → validate_build l b ≡ and_then (validate_retry_delays l b) (λ _. ok)
unfolding validate_build
check_unless l b backoff strategy retries = rw (backoff, strategy, retries) refl

-- Of a configuration with its defaults, whatever it was, the validation of the build comes down to
-- that of the two retry delays: its backoff mode and its clone strategy are known ones, and its
-- retries are not negative.
pub validate_build-apply_defaults :
    (l : Library) (c : Config)
    → validate_build l (apply_defaults l c).build
      ≡ and_then (validate_retry_delays l (apply_defaults l c).build) (λ _. ok)
validate_build-apply_defaults l c =
    let b = default_build l c.build in
    let same = later_defaults-AgreesOn l (default_output c.output) c.daemon b in
    check_unless l (apply_defaults l c).build
      (unfold apply_defaults in ap (one_of retry_backoffs) same.backoff ∙ backoff_known l c.build)
      (unfold apply_defaults in
        ap (one_of clone_strategies) same.strategy ∙ strategy_known l c.build)
      (unfold apply_defaults in ap is_neg same.retries ∙ retries_not_negative l c.build)
