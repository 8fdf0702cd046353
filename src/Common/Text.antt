-- ===== src/Common/Text.antt =====
-- Go strings that the code only compares, and maps keyed by them as association lists.
use Prim.Native.String.{String}
use text.Mathlib.Text.{◌==◌}
use text.Mathlib.TextEquality.{eq_iff}
use mathlib.Core.Path.{◌≡◌, refl}
use mathlib.Core.Bool.{Bool}
use mathlib.Core.Option.{Option, none, some}
use mathlib.Core.List.{List, [], ◌∷◌}
use native.Mathlib.Omega.{arith}
use docbuilder.Common.Tests.{if◌then◌else◌}

-- s == t on strings; `eq_iff` is its law.
abbrev pub str_eq : String → String → Bool
str_eq s t = s == t

abbrev pub is_empty : String → Bool
is_empty s = s == ""

-- A map: a missing key has no entry, and a nil map is the empty list.
abbrev pub StringMap {ℓ} : Type ℓ → Type ℓ
StringMap V = List (String × V)

module _ {ℓ} {V : Type ℓ} where
  -- v, ok := m[k]
  unfoldable pub get : StringMap V → String → Option V
  get [] k = none
  get (e ∷ m) k = if str_eq e.0 k then some e.1 else get m k

  -- m[k] = v
  unfoldable pub put : StringMap V → String → V → StringMap V
  put [] k v = (k, v) ∷ []
  put (e ∷ m) k v = if str_eq e.0 k then (k, v) ∷ m else e ∷ put m k v

  -- delete(m, k)
  unfoldable pub delete : StringMap V → String → StringMap V
  delete [] k = []
  delete (e ∷ m) k = let rest = delete m k in if str_eq e.0 k then rest else e ∷ rest

  pub get-put :
      (m : StringMap V) (k : String) (v : V) (j : String)
      → get (put m k v) j ≡ (if str_eq k j then some v else get m j)
  unfolding get put
  get-put [] k v j = refl
  get-put (e ∷ m) k v j = ground (arith, get-put m k v j, eq_iff e.0 k, eq_iff k j, eq_iff e.0 j)

  pub get-delete :
      (m : StringMap V) (k j : String) → get (delete m k) j ≡ (if str_eq k j then none else get m j)
  unfolding get delete
  get-delete [] k j = ground arith
  get-delete (e ∷ m) k j = ground (arith, get-delete m k j, eq_iff e.0 k, eq_iff k j, eq_iff e.0 j)
