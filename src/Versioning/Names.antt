-- ===== src/Versioning/Names.antt =====
-- calculateVersionChanges: the maps by name, and the names that they have.
use Prim.Native.String.{String}
use text.Mathlib.TextEquality.{eq_iff}
use docbuilder.Common.{
  ℕ, ◌+◌, ◌≤◌, Bool, true, false, not, ◌&&◌, ◌||◌, ◌≡◌, refl, ◌∙◌, ap, none, some, List, [], ◌∷◌,
  if◌then◌else◌, arith, length, Bool-cases, inl, inr,
}
use docbuilder.Common.Text.{StringMap, get, put, str_eq}
use docbuilder.Versioning.{Version, by_name, count_missing, count_updated}

-- Whether a version has the name
unfoldable pub is_named : List Version → String → Bool
is_named [] k = false
is_named (v ∷ vs) k = str_eq v.name k || is_named vs k

-- The number of different names that meet a test
unfoldable pub count_names : (String → Bool) → List Version → ℕ
count_names q [] = 0
count_names q (v ∷ vs) = (if not (is_named vs v.name) && q v.name then 1 else 0) + count_names q vs

-- Whether a map has the key
unfoldable pub has : StringMap Version → String → Bool
has [] k = false
has (e ∷ m) k = str_eq e.0 k || has m k

unfoldable pub has_unique_keys : StringMap Version → Bool
unfolding has
has_unique_keys [] = true
has_unique_keys (e ∷ m) = not (has m e.0) && has_unique_keys m

pub has-put :
    (m : StringMap Version) (k : String) (v : Version) (j : String)
    → has (put m k v) j ≡ str_eq k j || has m j
unfolding has put
has-put [] k v j = refl
has-put (e ∷ m) k v j = ground (arith, has-put m k v j, eq_iff e.0 k, eq_iff e.0 j, eq_iff k j)

pub put_unique :
    (m : StringMap Version) (k : String) (v : Version)
    → has_unique_keys m ≡ true
    → has_unique_keys (put m k v) ≡ true
unfolding has has_unique_keys put
put_unique [] k v h = refl
put_unique (e ∷ m) k v h =
    ground (arith, put_unique m k v, has-put m k v e.0, eq_iff e.0 k, eq_iff k e.0)

pub by_name_unique :
    (vs : List Version) (m : StringMap Version)
    → has_unique_keys m ≡ true
    → has_unique_keys (by_name vs m) ≡ true
unfolding by_name
by_name_unique [] m h = h
by_name_unique (v ∷ vs) m h = by_name_unique vs (put m v.name v) (put_unique m v.name v h)

-- The number of keys of the first map that the second has
pub count_common : StringMap Version → StringMap Version → ℕ
unfolding has
count_common [] m = 0
count_common (e ∷ es) m = (if has m e.0 then 1 else 0) + count_common es m

pub has-get :
    (m : StringMap Version) (k : String) → has m k ≡ elim (get m k) [ none ↦ false | some v ↦ true ]
unfolding has get
has-get [] k = refl
has-get (e ∷ m) k = ground (arith, has-get m k)

pub missing-common : (a b : StringMap Version) → count_missing a b + count_common a b ≡ length a
unfolding count_missing count_common
missing-common [] b = omega arith
missing-common (e ∷ a) b = ground (arith, missing-common a b, has-get b e.0)

pub updated-common : (a b : StringMap Version) → count_updated a b ≤ count_common a b
unfolding count_updated count_common
updated-common [] b = omega arith
updated-common (e ∷ a) b = ground (arith, updated-common a b, has-get b e.0)

-- A key more in the second map
common-nil : (a : StringMap Version) → count_common a [] ≡ 0
unfolding count_common has
common-nil [] = refl
common-nil (e ∷ a) = omega (arith, common-nil a)

common-absent :
    (a : StringMap Version) (e : String × Version) (b : StringMap Version)
    → has a e.0 ≡ false
    → count_common a (e ∷ b) ≡ count_common a b
unfolding count_common has
common-absent [] e b h = refl
common-absent (x ∷ a) e b h = ground (arith, common-absent a e b, eq_iff x.0 e.0, eq_iff e.0 x.0)

common-cons :
    (a : StringMap Version) (e : String × Version) (b : StringMap Version)
    → has_unique_keys a ≡ true
    → has b e.0 ≡ false
    → count_common a (e ∷ b) ≡ (if has a e.0 then 1 else 0) + count_common a b
unfolding count_common has has_unique_keys
common-cons [] e b h k = omega arith
common-cons (x ∷ a) e b h k = elim (Bool-cases (str_eq x.0 e.0)) [
  | inl same ↦
      let name : x.0 ≡ e.0 = (eq_iff x.0 e.0).0 same in
      ground (arith, h, k, name, eq_iff e.0 x.0, common-absent a e b)
  | inr other ↦ ground (arith, h, other, common-cons a e b, eq_iff e.0 x.0, eq_iff x.0 e.0)
]

pub common_comm :
    (a b : StringMap Version)
    → has_unique_keys a ≡ true
    → has_unique_keys b ≡ true
    → count_common a b ≡ count_common b a
unfolding count_common has_unique_keys
common_comm a [] h k = common-nil a
common_comm a (e ∷ b) h k = ground (arith, k, common-cons a e b h, common_comm a b h)

-- The map by name has one entry for each name.
pub is_named-has :
    (vs : List Version) (m : StringMap Version) (k : String)
    → has (by_name vs m) k ≡ is_named vs k || has m k
unfolding by_name is_named
is_named-has [] m k = refl
is_named-has (v ∷ vs) m k = ground (arith, is_named-has vs (put m v.name v) k, has-put m v.name v k)

has-names : (vs : List Version) (k : String) → has (by_name vs []) k ≡ is_named vs k
unfolding has
has-names vs k = ground (arith, is_named-has vs [] k)

-- The keys of a map that meet a test, and the names that it does not have
unfoldable pub count_keys : (String → Bool) → StringMap Version → ℕ
count_keys q [] = 0
count_keys q (e ∷ m) = (if q e.0 then 1 else 0) + count_keys q m

fresh : (String → Bool) → List Version → StringMap Version → ℕ
fresh q [] m = 0
fresh q (v ∷ vs) m =
    (if not (is_named vs v.name) && not (has m v.name) && q v.name then 1 else 0) + fresh q vs m

keys-put :
    (q : String → Bool) (m : StringMap Version) (k : String) (v : Version)
    → count_keys q (put m k v) ≡ (if not (has m k) && q k then 1 else 0) + count_keys q m
unfolding count_keys put has
keys-put q [] k v = refl
keys-put q (e ∷ m) k v = elim (Bool-cases (str_eq e.0 k)) [
  | inl same ↦ let name : q e.0 ≡ q k = ap q ((eq_iff e.0 k).0 same) in ground (arith, same, name)
  | inr other ↦ ground (arith, other, keys-put q m k v)
]

fresh-put :
    (q : String → Bool) (vs : List Version) (m : StringMap Version) (k : String) (v : Version)
    → fresh q vs m
      ≡ fresh q vs (put m k v) + (if is_named vs k && not (has m k) && q k then 1 else 0)
unfolding fresh is_named
fresh-put q [] m k v = omega arith
fresh-put q (x ∷ vs) m k v = elim (Bool-cases (str_eq x.name k)) [
  | inl same ↦
      let name : x.name ≡ k = (eq_iff x.name k).0 same in
      ground (arith, same, name, fresh-put q vs m k v, has-put m k v x.name, eq_iff k x.name)
  | inr other ↦
      ground
        (arith, other, fresh-put q vs m k v, has-put m k v x.name, eq_iff k x.name, eq_iff x.name k)
]

keys-by_name :
    (q : String → Bool) (vs : List Version) (m : StringMap Version)
    → count_keys q (by_name vs m) ≡ count_keys q m + fresh q vs m
unfolding by_name fresh
keys-by_name q [] m = omega arith
keys-by_name q (v ∷ vs) m =
    ground
      (arith, keys-by_name q vs (put m v.name v), keys-put q m v.name v, fresh-put q vs m v.name v)

fresh-names : (q : String → Bool) (vs : List Version) → fresh q vs [] ≡ count_names q vs
unfolding fresh count_names has
fresh-names q [] = refl
fresh-names q (v ∷ vs) = ground (arith, fresh-names q vs)

pub names_lem :
    (q : String → Bool) (vs : List Version) → count_keys q (by_name vs []) ≡ count_names q vs
unfolding count_keys
names_lem q vs = omega (arith, keys-by_name q vs [], fresh-names q vs)

pub length-keys : (m : StringMap Version) → length m ≡ count_keys (λ k. true) m
unfolding count_keys
length-keys [] = refl
length-keys (e ∷ m) = omega (arith, length-keys m)

missing-keys :
    (a : StringMap Version) (vs : List Version)
    → count_missing a (by_name vs []) ≡ count_keys (λ k. not (is_named vs k)) a
unfolding count_missing count_keys
missing-keys [] vs = refl
missing-keys (e ∷ a) vs =
    ground (arith, missing-keys a vs, has-get (by_name vs []) e.0, has-names vs e.0)

pub missing_lem :
    (a b : List Version)
    → count_missing (by_name a []) (by_name b []) ≡ count_names (λ k. not (is_named b k)) a
missing_lem a b = missing-keys (by_name a []) b ∙ names_lem (λ k. not (is_named b k)) a
