-- ===== src/Versioning/Included.antt =====
-- convertReferenceToVersion: the references that a configuration asks for, and their versions.
use Prim.Native.String.{String}
use text.Mathlib.TextEquality.{eq_iff}
use docbuilder.Common.{
  true, false, ◌&&◌, ◌≡◌, ◌⊎◌, refl, some, List, [], ◌∷◌, arith, All, Bool-cases, Option-cases, inl,
  inr,
}
use docbuilder.Common.Text.{str_eq}
use docbuilder.Versioning.{
  VersionStrategy, default_only, branches, tags, branches_and_tags, unknown_strategy, VersionType,
  branch, tag, matches_patterns, VersionConfig, is_branch, Version, GitReference, Platform,
  is_included, convert_reference, filter_references,
}

abbrev pub Listed : GitReference → List GitReference → Type 0
Listed r [] = ⊥
Listed r (x ∷ xs) = (r ≡ x) ⊎ Listed r xs

-- The branches and tags that a configuration asks for
pub data Includes (p : Platform) (c : VersionConfig) (default : String) (r : GitReference)
    : Type 0 where
  the_default :
      c.strategy ≡ default_only → r.type ≡ branch → r.name ≡ default → Includes p c default r
  a_branch :
      (c.strategy ≡ branches) ⊎ (c.strategy ≡ branches_and_tags)
      → r.type ≡ branch
      → matches_patterns p r.name c.branch_patterns ≡ true
      → Includes p c default r
  a_tag :
      (c.strategy ≡ tags) ⊎ (c.strategy ≡ branches_and_tags)
      → r.type ≡ tag
      → matches_patterns p r.name c.tag_patterns ≡ true
      → Includes p c default r

-- A version made of one of the references, which the configuration asks for
pub record IsFrom (p : Platform) (c : VersionConfig) (default : String) (rs : List GitReference)
    (v : Version) : Type 0 where
  pub source : GitReference
  pub listed : Listed source rs
  pub included : Includes p c default source
  pub name : v.name ≡ source.name
  pub type : v.type ≡ source.type
  pub commit_sha : v.commit_sha ≡ source.commit_sha
  pub created_at : v.created_at ≡ source.created_at
  pub is_default : v.is_default ≡ is_branch source.type && str_eq source.name default

module _ (p : Platform) (c : VersionConfig) (default : String) where
  branch_lem : (t : VersionType) → is_branch t ≡ true → t ≡ branch
  branch_lem branch h = refl
  branch_lem tag h = cc

  tag_lem : (t : VersionType) → is_branch t ≡ false → t ≡ tag
  tag_lem branch h = cc
  tag_lem tag h = refl

  pub included_lem :
      (r : GitReference) (s : VersionStrategy)
      → c.strategy ≡ s
      → is_included p c default r ≡ true
      → Includes p c default r
  unfolding is_included
  included_lem r default_only s h =
      the_default s (branch_lem r.type (ground (arith, h, s)))
        ((eq_iff r.name default).0 (ground (arith, h, s)))
  included_lem r branches s h =
      a_branch (inl s) (branch_lem r.type (ground (arith, h, s))) (ground (arith, h, s))
  included_lem r tags s h =
      a_tag (inl s) (tag_lem r.type (ground (arith, h, s))) (ground (arith, h, s))
  included_lem r branches_and_tags s h = elim (Bool-cases (is_branch r.type)) [
    | inl yes_branch ↦
        a_branch (inr s) (branch_lem r.type yes_branch) (ground (arith, h, s, yes_branch))
    | inr is_tag ↦ a_tag (inr s) (tag_lem r.type is_tag) (ground (arith, h, s, is_tag))
  ]
  included_lem r (unknown_strategy t) s h = ground (arith, h, s)

  pub Includes-included :
      (r : GitReference) → Includes p c default r → is_included p c default r ≡ true
  unfolding is_included
  Includes-included r (the_default s t n) = ground (arith, s, t, (eq_iff r.name default).1 n)
  Includes-included r (a_branch (inl s) t m) = ground (arith, s, t, m)
  Includes-included r (a_branch (inr s) t m) = ground (arith, s, t, m)
  Includes-included r (a_tag (inl s) t m) = ground (arith, s, t, m)
  Includes-included r (a_tag (inr s) t m) = ground (arith, s, t, m)

  convert-IsFrom :
      (r : GitReference) (rs : List GitReference) (v : Version)
      → Listed r rs
      → convert_reference p c default r ≡ some v
      → IsFrom p c default rs v
  unfolding convert_reference
  convert-IsFrom r rs v l h = record {
    source = r;
    listed = l;
    included = included_lem r c.strategy refl (ground (arith, h));
    name = ground (arith, h);
    type = ground (arith, h);
    commit_sha = ground (arith, h);
    created_at = ground (arith, h);
    is_default = ground (arith, h);
  }

  pub filter-IsFrom :
      (rs all : List GitReference)
      → ((r : GitReference) → Listed r rs → Listed r all)
      → All (IsFrom p c default all) (filter_references p c default rs)
  unfolding filter_references
  filter-IsFrom [] all k = tt
  filter-IsFrom (r ∷ rs) all k =
      let rest = filter-IsFrom rs all (λ x l. k x (inr l)) in
      elim (Option-cases (convert_reference p c default r)) [
        | inl left_out ↦ rw (filter_references, left_out) rest
        | inr (v, is_v) ↦
            rw (filter_references, is_v) (convert-IsFrom r all v (k r (inl refl)) is_v, rest)
      ]
