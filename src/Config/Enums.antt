-- ===== src/Config/Enums.antt =====
-- internal/foundation/normalization/normalizer.go, and the tables of internal/config's enumerations.
pub mod Known
use Prim.Native.String.{String}
use docbuilder.Common.{Bool, true, false, ◌||◌, Option, none, some, List, [], ◌∷◌, if◌then◌else◌}
use docbuilder.Common.Text.{StringMap, get, put, str_eq}
use docbuilder.Config.{Library}

-- Normalizer, of strings
pub record Normalizer : Type 0 where
  pub valid_values : StringMap String
  pub default_value : String

-- defaultNormalization
unfoldable pub default_normalization : Library → String → String
default_normalization l s = l.to_lower (l.trim_space s)

-- The loop of NewNormalizer, the head of the list last
normalized_keys : Library → StringMap String → StringMap String
normalized_keys l [] = []
normalized_keys l (e ∷ values) = put (normalized_keys l values) (default_normalization l e.0) e.1

-- NewNormalizer
unfoldable pub new_normalizer : Library → StringMap String → String → Normalizer
unfolding normalized_keys
new_normalizer l values default_value = record {
  valid_values = normalized_keys l values;
  default_value = default_value;
}

abbrev pub or_default : Option String → String → String
or_default none d = d
or_default (some v) d = v

-- Normalize
unfoldable pub normalize : Library → Normalizer → String → String
normalize l n raw = or_default (get n.valid_values (default_normalization l raw)) n.default_value

has_value : StringMap String → String → Bool
has_value [] v = false
has_value (e ∷ m) v = str_eq e.1 v || has_value m v

-- ValidateEnum
pub validate_enum : Normalizer → String → Bool
unfolding has_value
validate_enum n v = has_value n.valid_values v

-- Values that stand under their own text
abbrev pub table : List String → StringMap String
table [] = []
table (v ∷ vs) = (v, v) ∷ table vs

abbrev pub render_modes : List String
render_modes = "auto" ∷ "always" ∷ "never" ∷ []

abbrev pub namespacing_modes : List String
namespacing_modes = "auto" ∷ "always" ∷ "never" ∷ []

abbrev pub clone_strategies : List String
clone_strategies = "fresh" ∷ "update" ∷ "auto" ∷ []

abbrev pub retry_backoffs : List String
retry_backoffs = "fixed" ∷ "linear" ∷ "exponential" ∷ []

abbrev pub versioning_strategies : List String
versioning_strategies = "branches_and_tags" ∷ "branches_only" ∷ "tags_only" ∷ []

abbrev pub log_levels : List String
log_levels = "debug" ∷ "info" ∷ "warn" ∷ "error" ∷ []

abbrev pub log_formats : List String
log_formats = "json" ∷ "text" ∷ []

abbrev pub forge_types : List String
forge_types = "github" ∷ "gitlab" ∷ "forgejo" ∷ "local" ∷ []

abbrev pub auth_types : List String
auth_types = "none" ∷ "ssh" ∷ "token" ∷ "basic" ∷ []

-- NormalizeRenderMode
unfoldable pub normalize_render_mode : Library → String → String
normalize_render_mode l raw = normalize l (new_normalizer l (table render_modes) "") raw

-- NormalizeNamespacingMode
unfoldable pub normalize_namespacing_mode : Library → String → String
normalize_namespacing_mode l raw = normalize l (new_normalizer l (table namespacing_modes) "") raw

-- NormalizeCloneStrategy
unfoldable pub normalize_clone_strategy : Library → String → String
normalize_clone_strategy l raw = normalize l (new_normalizer l (table clone_strategies) "") raw

-- NormalizeRetryBackoff
unfoldable pub normalize_retry_backoff : Library → String → String
normalize_retry_backoff l raw = normalize l (new_normalizer l (table retry_backoffs) "fixed") raw

-- NormalizeVersioningStrategy
unfoldable pub normalize_versioning_strategy : Library → String → String
normalize_versioning_strategy l raw =
    normalize l (new_normalizer l (table versioning_strategies) "") raw

-- NormalizeLogLevel
unfoldable pub normalize_log_level : Library → String → String
normalize_log_level l raw = normalize l (new_normalizer l (table log_levels) "info") raw

-- NormalizeLogFormat
unfoldable pub normalize_log_format : Library → String → String
normalize_log_format l raw = normalize l (new_normalizer l (table log_formats) "text") raw

-- NormalizeForgeType
unfoldable pub normalize_forge_type : Library → String → String
normalize_forge_type l raw = normalize l (new_normalizer l (table forge_types) "") raw

-- NormalizeAuthType
pub normalize_auth_type : Library → String → String
normalize_auth_type l raw = normalize l (new_normalizer l (table auth_types) "") raw
