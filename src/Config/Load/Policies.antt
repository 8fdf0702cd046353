-- ===== src/Config/Load/Policies.antt =====
-- The retry policy that the queue makes of a configuration that was loaded.
use Prim.Native.String.{String}
use text.Mathlib.TextEquality.{eq_iff}
use docbuilder.Common.{
  Bool, true, false, not, ◌≡◌, ◌⊎◌, refl, sym, ap, ◌∙◌, subst, Option, none, some, arith,
  Bool-cases, inl, inr,
}
use docbuilder.Common.Int.{ℤ, is_pos, lt_ℤ}
use docbuilder.Common.Text.{str_eq}
use docbuilder.Retry.{
  RetryBackoffMode, fixed, linear, exponential, Policy, default_policy, choose_mode, new_policy,
  validate,
}
use docbuilder.Retry.Bounds.{validate-new_policy}
use docbuilder.Config.{Library, BuildConfig, Config}
use docbuilder.Config.Enums.{retry_backoffs, clone_strategies}
use docbuilder.Config.Normalize.{normalize_config}
use docbuilder.Config.Defaults.{default_build, default_output}
use docbuilder.Config.Defaults.Daemon.{apply_defaults}
use docbuilder.Config.Validate.{
  passed, one_of, invalid_backoff, invalid_clone_strategy, unsupported_version,
}
use docbuilder.Config.Validate.Domains.{check_delays, validate_retry_delays, validate_build}
use docbuilder.Config.Validate.Passed.{validate_config-IsValid, unless-passed, and_then-passed}
use docbuilder.Config.Load.BuildDefaults.{default_retries}
use docbuilder.Config.Load.{load, mode_of, or_zero, configure_retry}

check_delays-passed :
    (initial max : Option ℤ) (answer : Bool)
    → check_delays initial max ≡ passed answer
    → (i m : ℤ) × (initial ≡ some i) × (max ≡ some m) × (lt_ℤ m i ≡ false)
unfolding check_delays
check_delays-passed none max answer h = absurd (cc)
check_delays-passed (some i) none answer h = absurd (cc)
check_delays-passed (some i) (some m) answer h =
    let (ordered, h1) = unless-passed (lt_ℤ m i) _ _ answer h in (i, m, refl, refl, ordered)

-- A mode with a name
abbrev pub IsNamed : RetryBackoffMode → Type 0
IsNamed m = (m ≡ fixed) ⊎ ((m ≡ linear) ⊎ (m ≡ exponential))

mode_of-IsNamed : (s : String) → one_of retry_backoffs s ≡ true → IsNamed (mode_of s)
unfolding one_of mode_of
mode_of-IsNamed s h = elim (Bool-cases (str_eq "fixed" s)) [
  | inl first ↦ inl (ap mode_of (sym ((eq_iff "fixed" s).0 first)))
  | inr not_first ↦ elim (Bool-cases (str_eq "linear" s)) [
    | inl second ↦ inr (inl (ap mode_of (sym ((eq_iff "linear" s).0 second))))
    | inr not_second ↦
        let third : str_eq "exponential" s ≡ true = ground (arith, h, not_first, not_second) in
        inr (inr (ap mode_of (sym ((eq_iff "exponential" s).0 third))))
  ]
]

-- The build's part passes: what that says of the backoff and of the delays
validate_build-passed :
    (l : Library) (b : BuildConfig) (answer : Bool)
    → validate_build l b ≡ passed answer
    → (one_of retry_backoffs b.retry_backoff ≡ true)
      × ((i m : ℤ) × (l.parse_duration b.retry_initial_delay ≡ some i)
          × (l.parse_duration b.retry_max_delay ≡ some m)
          × (lt_ℤ m i ≡ false))
unfolding validate_build validate_retry_delays
validate_build-passed l b answer h =
    let (backoff, h1) =
      unless-passed (not (one_of retry_backoffs b.retry_backoff)) invalid_backoff _ answer h in
    let (strategy, h2) =
      unless-passed (not (one_of clone_strategies b.clone_strategy)) invalid_clone_strategy _ answer
        h1 in
    let (a, delays, h3) = and_then-passed (validate_retry_delays l b) _ answer h2 in
    (
      ground (arith, backoff),
      check_delays-passed (l.parse_duration b.retry_initial_delay)
          (l.parse_duration b.retry_max_delay) a delays,
    )

-- What is loaded has at least one retry: the default replaces 0.
retries_positive : (l : Library) (c : Config) → is_pos (apply_defaults l c).build.max_retries ≡ true
unfolding apply_defaults
retries_positive l c =
    ap is_pos (default_retries l (default_output c.output) c.daemon (default_build l c.build))
    ∙ (unfold default_build in ground arith)

-- A policy is what a build's configuration states.
pub record IsStated (l : Library) (b : BuildConfig) (p : Policy) : Type 0 where
  pub mode : p.mode ≡ mode_of b.retry_backoff
  pub named : IsNamed p.mode
  pub retries : p.max_retries ≡ b.max_retries
  pub retries_positive : is_pos b.max_retries ≡ true
  pub initial : ℤ
  pub max : ℤ
  pub initial_parses : l.parse_duration b.retry_initial_delay ≡ some initial
  pub max_parses : l.parse_duration b.retry_max_delay ≡ some max
  pub ordered : lt_ℤ max initial ≡ false
  pub delays : (is_pos initial ≡ false) ⊎ ((p.initial ≡ initial) × (p.max ≡ max))
  pub valid : validate p ≡ none

new_policy-mode : (m : RetryBackoffMode) (i x r : ℤ) → IsNamed m → (new_policy m i x r).mode ≡ m
unfolding new_policy
new_policy-mode m i x r (inl h) = ap (λ t. choose_mode t default_policy.mode) h ∙ sym h
new_policy-mode m i x r (inr (inl h)) = ap (λ t. choose_mode t default_policy.mode) h ∙ sym h
new_policy-mode m i x r (inr (inr h)) = ap (λ t. choose_mode t default_policy.mode) h ∙ sym h

new_policy-retries :
    (m : RetryBackoffMode) (i x r : ℤ) → is_pos r ≡ true → (new_policy m i x r).max_retries ≡ r
unfolding new_policy
new_policy-retries m i x r h = ground (arith, h)

new_policy-delays :
    (m : RetryBackoffMode) (i x r : ℤ)
    → is_pos i ≡ true
    → lt_ℤ x i ≡ false
    → ((new_policy m i x r).initial ≡ i) × ((new_policy m i x r).max ≡ x)
unfolding new_policy
new_policy-delays m i x r h k = (ground (arith, h, k), ground (arith, h, k))

configure_retry-IsStated :
    (l : Library) (b : BuildConfig) (i m : ℤ)
    → one_of retry_backoffs b.retry_backoff ≡ true
    → is_pos b.max_retries ≡ true
    → l.parse_duration b.retry_initial_delay ≡ some i
    → l.parse_duration b.retry_max_delay ≡ some m
    → lt_ℤ m i ≡ false
    → IsStated l b (configure_retry l b)
unfolding configure_retry
configure_retry-IsStated l b i m known positive initial max ordered =
    let named = mode_of-IsNamed b.retry_backoff known in
    let kept =
      new_policy-mode (mode_of b.retry_backoff) (or_zero (l.parse_duration b.retry_initial_delay))
        (or_zero (l.parse_duration b.retry_max_delay)) b.max_retries named in
    record {
      mode = kept;
      named = subst IsNamed (sym kept) named;
      retries = new_policy-retries _ _ _ b.max_retries positive;
      retries_positive = positive;
      initial = i;
      max = m;
      initial_parses = initial;
      max_parses = max;
      ordered = ordered;
      delays = elim (Bool-cases (is_pos i)) [
        | inl h ↦ inr (rw (initial, max) (new_policy-delays _ i m b.max_retries h ordered))
        | inr h ↦ inl h
      ];
      valid = validate-new_policy _ _ _ _;
    }

-- The policy that the queue uses after loading is the one that the configuration states: its mode is
-- that of the backoff, one of the three; its retries are the retries, at least 1; both delays parse,
-- in order, and where the first is positive they are the policy's; and it passes `Validate`.
pub load-configure_retry :
    (l : Library) (c result : Config)
    → load l c ≡ passed result
    → IsStated l result.build (configure_retry l result.build)
unfolding load
load-configure_retry l c result h =
    let (versioned, h1) =
      unless-passed (not (str_eq c.version "2.0")) unsupported_version _ result h in
    let full = apply_defaults l (normalize_config l c).0 in
    let valid = validate_config-IsValid l full result h1 in
    let same : full.build ≡ result.build = ap (λ t. t.build) (sym valid.unchanged) in
    let (known, (i, m, initial, max, ordered)) =
      validate_build-passed l result.build valid.build_answer
        (ap (validate_build l) (sym same) ∙ valid.build) in
    configure_retry-IsStated l result.build i m known
      (ap (λ b. is_pos b.max_retries) (sym same) ∙ retries_positive l (normalize_config l c).0)
      initial max ordered
