-- ===== src/Config/Enums/Known.antt =====
-- Normalized texts are names of their enumeration, or its default.
use Prim.Native.String.{String}
use text.Mathlib.TextEquality.{eq_iff}
use docbuilder.Common.{
  true, ◌≡◌, refl, none, some, List, [], ◌∷◌, arith, if◌then◌else◌, Option-cases, inl, inr,
}
use docbuilder.Common.Text.{get, get-put}
use docbuilder.Config.{Library}
use docbuilder.Config.Enums.{
  default_normalization, normalized_keys, new_normalizer, normalize, table,
}
use docbuilder.Config.Validate.{one_of}

-- A value that the map of a normalizer holds is one of the table.
get-normalized_keys :
    (l : Library) (vs : List String) (k v : String)
    → get (normalized_keys l (table vs)) k ≡ some v
    → one_of vs v ≡ true
unfolding normalized_keys one_of get
get-normalized_keys l [] k v h = cc
get-normalized_keys l (u ∷ vs) k v h = ground (
  arith,
  h,
  get-put (normalized_keys l (table vs)) (default_normalization l u) u k,
  get-normalized_keys l vs k v,
  eq_iff u v,
)

pub normalize-one_of :
    (l : Library) (vs : List String) (d raw : String)
    → one_of (d ∷ vs) (normalize l (new_normalizer l (table vs) d) raw) ≡ true
unfolding normalize new_normalizer one_of
normalize-one_of l vs d raw =
    elim (Option-cases (get (normalized_keys l (table vs)) (default_normalization l raw))) [
      | inl h ↦ rw h (ground (arith, eq_iff d d))
      | inr (v, h) ↦
          rw h (ground (arith, get-normalized_keys l vs (default_normalization l raw) v h))
    ]

-- The names of an enumeration are normal already.
abbrev pub AreNormal : Library → List String → Type 0
AreNormal l vs = (s : String) → one_of vs s ≡ true → default_normalization l s ≡ s

get-table :
    (l : Library) (vs : List String) (k : String)
    → AreNormal l vs
    → get (normalized_keys l (table vs)) k ≡ (if one_of vs k then some k else none)
unfolding normalized_keys one_of get
get-table l [] k normal = refl
get-table l (v ∷ vs) k normal = ground (
  arith,
  get-put (normalized_keys l (table vs)) (default_normalization l v) v k,
  get-table l vs k (λ s h. normal s (ground (arith, h))),
  normal v (ground (arith, eq_iff v v)),
  eq_iff v k,
)

-- What a normalizer makes of a text: the name that it is up to case and space, or the default
pub normalize-table :
    (l : Library) (vs : List String) (d raw : String)
    → AreNormal l vs
    → normalize l (new_normalizer l (table vs) d) raw
      ≡ (if one_of vs (default_normalization l raw) then default_normalization l raw else d)
unfolding normalize new_normalizer
normalize-table l vs d raw normal =
    rw (get-table l vs (default_normalization l raw) normal) (ground arith)
