-- ===== src/Config/Validate.antt =====
-- internal/config/validation.go. The validation writes normalized forge types into the configuration.
pub mod Domains
pub mod Passed
use Prim.Native.String.{String}
use docbuilder.Common.{
  ℕ, ◌*◌, Bool, true, false, not, ◌&&◌, ◌||◌, Option, none, some, List, [], ◌∷◌, if◌then◌else◌,
}
use docbuilder.Common.Int.{ℤ, pos, lt_ℤ, is_pos, is_neg}
use docbuilder.Common.Text.{is_empty, str_eq}
use docbuilder.Config.{
  Library, BuildConfig, OutputConfig, BuildDebounceConfig, DaemonConfig, VersioningConfig,
  AuthConfig, ForgeConfig, Repository, Config,
}
use docbuilder.Config.Enums.{
  normalize_forge_type, render_modes, clone_strategies, retry_backoffs, versioning_strategies,
  auth_types,
}

-- The errors of validation and of loading, by their messages
pub data ConfigError : Type 0 where
  unsupported_version nothing_to_build forge_without_name : ConfigError
  duplicate_forge unsupported_forge_type forge_without_auth unsupported_forge_auth :
      String → ConfigError
  forge_without_scope unsupported_auth incomplete_basic_auth : String → ConfigError
  invalid_backoff invalid_clone_strategy invalid_initial_delay invalid_max_delay : ConfigError
  max_delay_too_small negative_retries : ConfigError
  empty_schedule invalid_schedule : ConfigError
  invalid_quiet_window quiet_window_not_positive quiet_window_too_long : ConfigError
  invalid_debounce_delay debounce_delay_not_positive debounce_delay_too_long : ConfigError
  debounce_delay_too_small : ConfigError
  output_mismatch invalid_strategy strategy_required : ConfigError

-- A value, or the first error
pub data Checked {ℓ} (A : Type ℓ) : Type ℓ where
  refused : ConfigError → Checked A
  passed : A → Checked A

-- if b { return err }, and what follows
abbrev pub unless {ℓ} : {A : Type ℓ} → Bool → ConfigError → Checked A → Checked A
unless true e rest = refused e
unless false e rest = rest

-- if err := ...; err != nil { return err }, and what follows
abbrev pub and_then {ℓ κ} : {A : Type ℓ} {B : Type κ} → Checked A → (A → Checked B) → Checked B
and_then (refused e) next = refused e
and_then (passed a) next = next a

abbrev pub Check : Type 0
Check = Checked Bool

abbrev pub ok : Check
ok = passed true

unfoldable pub one_of : List String → String → Bool
one_of [] s = false
one_of (v ∷ vs) s = str_eq v s || one_of vs s

-- validateForgeType
unfoldable pub validate_forge_type : Library → ForgeConfig → Checked ForgeConfig
validate_forge_type l f =
    let kind = normalize_forge_type l f.kind in
    unless (is_empty f.kind) (unsupported_forge_type f.kind)
      (unless (is_empty kind) (unsupported_forge_type f.kind) (passed (record f { kind = kind })))

-- The case of a switch on the supported types of authentication, the empty text included
unfoldable pub is_supported_auth : String → Bool
is_supported_auth kind = is_empty kind || one_of auth_types kind

-- validateForgeAuth
unfoldable pub validate_forge_auth : String → Option AuthConfig → Check
validate_forge_auth name none = refused (forge_without_auth name)
validate_forge_auth name (some a) =
    unless (not (is_supported_auth a.kind)) (unsupported_forge_auth name) ok

no_names : List String → Bool
no_names [] = true
no_names (x ∷ xs) = false

is_set : Option Bool → Bool
is_set none = false
is_set (some b) = b

-- validateForgeScopes
unfoldable pub validate_forge_scopes : ForgeConfig → Check
unfolding no_names is_set
validate_forge_scopes f =
    unless
      (no_names f.organizations
        && no_names f.groups
        && not f.auto_discover
        && not (is_set f.auto_discover_option))
      (forge_without_scope f.name) ok

-- The body of the loop of validateForges, with the names of the forges before
unfoldable pub validate_forge : Library → List String → ForgeConfig → Checked ForgeConfig
validate_forge l names f = unless (is_empty f.name) forge_without_name (
    unless (one_of names f.name) (duplicate_forge f.name) (
      and_then (validate_forge_type l f) (λ typed.
        and_then (validate_forge_auth f.name f.auth)
          (λ _. and_then (validate_forge_scopes f) (λ _. passed typed)))))

unfoldable pub validate_forge_list :
    Library → List String → List ForgeConfig → Checked (List ForgeConfig)
validate_forge_list l names [] = passed []
validate_forge_list l names (f ∷ fs) =
    let rest = validate_forge_list l (f.name ∷ names) fs in
    and_then (validate_forge l names f) (λ typed. and_then rest (λ others. passed (typed ∷ others)))

-- validateForges
unfoldable pub validate_forges :
    Library → List ForgeConfig → List Repository → Checked (List ForgeConfig)
validate_forges l [] [] = refused nothing_to_build
validate_forges l [] (r ∷ rs) = passed []
validate_forges l (f ∷ fs) rs = validate_forge_list l [] (f ∷ fs)

-- validateRepoAuth
unfoldable pub validate_repo_auth : String → AuthConfig → Check
validate_repo_auth name a = unless (not (is_supported_auth a.kind)) (unsupported_auth name) (
    unless (str_eq a.kind "basic" && (is_empty a.username || is_empty a.password))
      (incomplete_basic_auth name) ok)

validate_repository : Repository → Check
validate_repository r = elim r.auth [ none ↦ ok | some a ↦ validate_repo_auth r.name a ]

-- validateRepositories
unfoldable pub validate_repositories : List Repository → Check
unfolding validate_repository
validate_repositories [] = ok
validate_repositories (r ∷ rs) =
    let rest = validate_repositories rs in and_then (validate_repository r) (λ _. rest)
