-- ===== src/Errors/Tests.antt =====
-- Wrapped errors and the theorem about transient errors at one.
use docbuilder.Common.{true, false, ◌≡◌, refl, some, ◌↔◌}
use docbuilder.Errors.Transient.{transient_iff, IsRetryable}
use docbuilder.Errors.{
  backoff, never, discovery_error, fatal, warning, clone_repos, discover_docs, sentinel, wrapped,
  wrapped_all, no_cause, and_cause, classified, classified_leaf, plain, StageError, transient,
  as_classified, is_sentinel,
}

-- The error of StageDiscoverDocs when the discovery fails: fmt.Errorf("%w: %w", ErrDiscovery, err)
abbrev discovery_failed : StageError
discovery_failed = record {
  kind = fatal;
  stage = discover_docs;
  err =
      wrapped_all "docbuilder: discovery error: no such file"
        (and_cause (sentinel discovery_error) (and_cause (plain "no such file") no_cause));
}

-- ErrDiscovery is found among its causes, and yet it is not transient, because it is no warning.
sentinel_found : is_sentinel discovery_error discovery_failed.err ≡ true
unfolding is_sentinel
sentinel_found = refl

discovery_failed_for_good : transient discovery_failed ≡ false
unfolding transient
discovery_failed_for_good = refl

-- A clone failure with two causes: the first has no strategy, the second wraps one.
abbrev clone_refused : StageError
clone_refused = record {
  kind = warning;
  stage = clone_repos;
  err = wrapped_all "clone docs" (
      and_cause (wrapped "remote" (plain "eof"))
        (and_cause (classified backoff "network" (classified_leaf never "tls")) no_cause));
}

first_counts : as_classified clone_refused.err ≡ some backoff
unfolding as_classified
first_counts = refl

transient_iff_example : (transient clone_refused ≡ true) ↔ IsRetryable clone_refused
transient_iff_example = transient_iff clone_refused
