-- ===== src/Heads/Unchanged.antt =====
-- When all repositories count as unchanged.
use Prim.Native.String.{String}
use text.Mathlib.TextEquality.{eq_iff}
use docbuilder.Common.{
  ℕ, Bool, true, false, ◌&&◌, ◌≡◌, ◌≢◌, ◌↔◌, refl, sym, ap, ◌∙◌, Option, none, some, [], ◌∷◌, arith,
  Bool-cases, inl, inr,
}
use docbuilder.Common.Text.{StringMap, get, put, get-put, str_eq}
use docbuilder.Heads.{
  GitState, set_pre_head, set_post_head, set_commit_date, same_head, all_same, unchanged_heads,
  all_repos_unchanged_computed,
}

is_missing : Option String → Bool
is_missing none = true
is_missing (some x) = false

-- No key has two entries.
keys_distinct : StringMap String → Bool
unfolding is_missing
keys_distinct [] = true
keys_distinct (e ∷ m) = is_missing (get m e.0) && keys_distinct m

keys_distinct-put :
    (m : StringMap String) (k v : String)
    → keys_distinct m ≡ true
    → keys_distinct (put m k v) ≡ true
unfolding keys_distinct put get
keys_distinct-put [] k v d = refl
keys_distinct-put (e ∷ m) k v d =
    ground (arith, keys_distinct-put m k v, get-put m k v e.0, eq_iff e.0 k, eq_iff k e.0)

-- Every repository with a head before has the same head afterwards.
abbrev pub IsSameAt : StringMap String → StringMap String → Type 0
IsSameAt pre post = (repo hash : String) → get pre repo ≡ some hash → get post repo ≡ some hash

same_head-some : (o : Option String) (pre : String) → same_head o pre ≡ true → o ≡ some pre
unfolding same_head
same_head-some none pre h = cc
same_head-some (some post) pre h = ap some (sym ((eq_iff pre post).0 h))

all_same-IsSameAt : (post m : StringMap String) → all_same post m ≡ true → IsSameAt m post
unfolding all_same get
all_same-IsSameAt post [] a repo hash h = cc
all_same-IsSameAt post ((name, pre) ∷ m) a repo hash h =
    let same : get post name ≡ some pre = same_head-some (get post name) pre (ground (arith, a)) in
    let rest = all_same-IsSameAt post m (ground (arith, a)) repo hash in
    elim (Bool-cases (str_eq name repo)) [
      | inl here ↦
          let is_pre : some pre ≡ some hash = rw here at h in
          ap (get post) (sym ((eq_iff name repo).0 here)) ∙ same ∙ is_pre
      | inr other ↦ rest (rw other at h)
    ]

IsSameAt-all_same :
    (post m : StringMap String) → keys_distinct m ≡ true → IsSameAt m post → all_same post m ≡ true
unfolding all_same get
IsSameAt-all_same post [] d same = refl
IsSameAt-all_same post ((name, pre) ∷ m) d same =
    let missing : is_missing (get m name) ≡ true = unfold keys_distinct in ground (arith, d) in
    let at_name = same name pre (rw ((eq_iff name name).1 refl)) in
    let rest =
      IsSameAt-all_same post m (unfold keys_distinct in ground (arith, d))
        (λ repo hash h. same repo hash (behind name pre m repo hash missing h)) in
    rw (at_name, rest) (unfold same_head in ground (arith, eq_iff pre pre))
  where
    behind :
        (name pre : String) (m : StringMap String) (repo hash : String)
        → is_missing (get m name) ≡ true
        → get m repo ≡ some hash
        → get ((name, pre) ∷ m) repo ≡ some hash
    behind name pre m repo hash missing h = elim (Bool-cases (str_eq name repo)) [
      | inl here ↦
          let at : get m name ≡ some hash = ap (get m) ((eq_iff name repo).0 here) ∙ h in
          absurd (unfold is_missing in cc)
      | inr other ↦ rw other h
    ]

-- A git state after some heads and dates were set, in any order.
pub data Reaches : GitState → Type 0 where
  begins : Reaches (record { pre_heads = []; post_heads = []; commit_dates = [] })
  sets_pre : {gs : GitState} (repo hash : String) → Reaches gs → Reaches (set_pre_head repo hash gs)
  sets_post :
      {gs : GitState} (repo hash : String) → Reaches gs → Reaches (set_post_head repo hash gs)
  sets_date :
      {gs : GitState} (repo : String) (date : ℕ)
      → Reaches gs
      → Reaches (set_commit_date repo date gs)

reachable-distinct : {gs : GitState} → Reaches gs → keys_distinct gs.pre_heads ≡ true
unfolding set_pre_head set_post_head set_commit_date
reachable-distinct begins = unfold keys_distinct in refl
reachable-distinct (sets_pre {gs} repo hash r) =
    keys_distinct-put gs.pre_heads repo hash (reachable-distinct r)
reachable-distinct (sets_post repo hash r) = reachable-distinct r
reachable-distinct (sets_date repo date r) = reachable-distinct r

unchanged_iff :
    (post pre : StringMap String)
    → keys_distinct pre ≡ true
    → (unchanged_heads post pre ≡ true) ↔ ((pre ≢ []) × IsSameAt pre post)
unfolding unchanged_heads
unchanged_iff post [] d = (λ h. cc, λ h. absurd (h.0 refl))
unchanged_iff post (e ∷ pre) d = (
  λ h. (λ nil. cc, all_same-IsSameAt post (e ∷ pre) h),
  λ h. IsSameAt-all_same post (e ∷ pre) d h.1,
)

-- In any git state that setting heads and dates leads to: all repositories count as unchanged
-- exactly when some head was noted before the update and every repository with a head noted before
-- has the same head noted after it.
pub all_repos_unchanged_iff :
    {gs : GitState}
    → Reaches gs
    → (all_repos_unchanged_computed gs ≡ true)
      ↔ ((gs.pre_heads ≢ []) × IsSameAt gs.pre_heads gs.post_heads)
unfolding all_repos_unchanged_computed
all_repos_unchanged_iff {gs} r = unchanged_iff gs.post_heads gs.pre_heads (reachable-distinct r)
