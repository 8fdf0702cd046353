-- ===== src/Errors.antt =====
-- internal/foundation/errors and internal/hugo/models/{stages,errors}.go: error values and the trees
-- that wrapping makes of them. An error may wrap one other or several, as `fmt.Errorf("%w: %w")` does.
pub mod Tree
pub mod Transient
mod Tests
use Prim.Native.String.{String}
use docbuilder.Common.{
  Bool, true, false, not, ◌&&◌, ◌||◌, Option, none, some, or_else, if◌then◌else◌,
}
use docbuilder.Common.Text.{str_eq}

-- errors.RetryStrategy
pub data RetryStrategy : Type 0 where
  never immediate backoff rate_limit user_action : RetryStrategy

-- models.ErrClone, models.ErrDiscovery, models.ErrHugo
pub data Sentinel : Type 0 where
  clone_error discovery_error hugo_error : Sentinel

-- models.StageErrorKind; `other_kind` is any other text.
pub data StageErrorKind : Type 0 where
  fatal warning canceled : StageErrorKind
  other_kind : String → StageErrorKind

-- models.StageName; `other_stage` is any other text.
pub data StageName : Type 0 where
  prepare_output clone_repos discover_docs generate_config layouts copy_content indexes run_hugo
        post_process :
      StageName
  other_stage : String → StageName

-- An error: one of `errors.New`, a sentinel, one made by `fmt.Errorf` with a `%w` or with several, a
-- ClassifiedError with or without a cause, or a *StageError.
mutual
  pub data GoError : Type 0 where
    plain : String → GoError
    sentinel : Sentinel → GoError
    wrapped : String → GoError → GoError
    wrapped_all : String → Causes → GoError
    classified : RetryStrategy → String → GoError → GoError
    classified_leaf : RetryStrategy → String → GoError
    stage_failure : StageErrorKind → StageName → GoError → GoError

  -- The errors that `Unwrap() []error` returns, in order
  pub data Causes : Type 0 where
    no_cause : Causes
    and_cause : GoError → Causes → Causes

-- models.StageError
pub record StageError : Type 0 where
  pub kind : StageErrorKind
  pub stage : StageName
  pub err : GoError

abbrev pub same_sentinel : Sentinel → Sentinel → Bool
same_sentinel clone_error clone_error = true
same_sentinel discovery_error discovery_error = true
same_sentinel hugo_error hugo_error = true
same_sentinel _ _ = false

-- errors.Is(err, target) for a sentinel; of several causes some may match.
unfoldable mutual
  pub is_sentinel : Sentinel → GoError → Bool
  is_sentinel t (plain m) = false
  is_sentinel t (sentinel s) = same_sentinel s t
  is_sentinel t (wrapped m e) = is_sentinel t e
  is_sentinel t (wrapped_all m es) = is_sentinel_any t es
  is_sentinel t (classified r m e) = is_sentinel t e
  is_sentinel t (classified_leaf r m) = false
  is_sentinel t (stage_failure k n e) = is_sentinel t e

  pub is_sentinel_any : Sentinel → Causes → Bool
  is_sentinel_any t no_cause = false
  is_sentinel_any t (and_cause e es) = is_sentinel t e || is_sentinel_any t es

-- AsClassified, with the retry strategy of the error that it finds; of several causes the first
-- that has one counts.
unfoldable mutual
  pub as_classified : GoError → Option RetryStrategy
  as_classified (plain m) = none
  as_classified (sentinel s) = none
  as_classified (wrapped m e) = as_classified e
  as_classified (wrapped_all m es) = as_classified_any es
  as_classified (classified r m e) = some r
  as_classified (classified_leaf r m) = some r
  as_classified (stage_failure k n e) = as_classified e

  pub as_classified_any : Causes → Option RetryStrategy
  as_classified_any no_cause = none
  as_classified_any (and_cause e es) = or_else (as_classified e) (as_classified_any es)

-- errors.As(err, &se) for a *StageError
unfoldable mutual
  pub as_stage_error : GoError → Option StageError
  as_stage_error (plain m) = none
  as_stage_error (sentinel s) = none
  as_stage_error (wrapped m e) = as_stage_error e
  as_stage_error (wrapped_all m es) = as_stage_error_any es
  as_stage_error (classified r m e) = as_stage_error e
  as_stage_error (classified_leaf r m) = none
  as_stage_error (stage_failure k n e) = some (record { kind = k; stage = n; err = e })

  pub as_stage_error_any : Causes → Option StageError
  as_stage_error_any no_cause = none
  as_stage_error_any (and_cause e es) = or_else (as_stage_error e) (as_stage_error_any es)

-- A *StageError as an error value.
abbrev pub to_error : StageError → GoError
to_error se = stage_failure se.kind se.stage se.err

abbrev pub is_never : RetryStrategy → Bool
is_never never = true
is_never _ = false

abbrev pub is_canceled : StageErrorKind → Bool
is_canceled canceled = true
is_canceled _ = false

abbrev pub is_fatal : StageErrorKind → Bool
is_fatal fatal = true
is_fatal _ = false

abbrev pub is_warning : StageErrorKind → Bool
is_warning warning = true
is_warning _ = false

abbrev retries : Option RetryStrategy → Bool
retries none = false
retries (some r) = not (is_never r)

-- The `switch` of `Transient` on the stage.
transient_in : StageName → StageError → Bool
unfolding is_sentinel as_classified
transient_in clone_repos e = is_sentinel clone_error e.err || retries (as_classified e.err)
transient_in run_hugo e = is_sentinel hugo_error e.err
transient_in discover_docs e = is_sentinel discovery_error e.err && is_warning e.kind
transient_in _ e = false

-- StageError.Transient
unfoldable pub transient : StageError → Bool
unfolding transient_in
transient e = if is_canceled e.kind then false else transient_in e.stage e
