-- ===== src/Common/Bytes.antt =====
-- Byte slices as lists of numbers, with the parts of Go's `bytes` and `strings` that are used.
use Prim.Native.Char.{code}
use Prim.Native.Nat.{ℕ, suc, ◌+◌, ◌≤◌}
use Prim.Native.String.{String}
use mathlib.Core.Path.{◌≡◌, refl, sym, ap, ◌∙◌}
use mathlib.Core.Logic.{◌⊎◌, inl, inr}
use mathlib.Core.Bool.{Bool, true, false, ◌&&◌}
use mathlib.Core.Option
use mathlib.Core.Option.{Option, none, some}
use mathlib.Core.List.{List, [], ◌∷◌, ◌++◌, append_assoc}
use native.Mathlib.Nat.{zero-add, suc-add}
use native.Mathlib.Omega.{arith}
use docbuilder.Common.Lists.{length, take, drop, length-append, length-take}
use docbuilder.Common.Tests.{◌==◌, if◌then◌else◌, Bool-cases}

abbrev pub Bytes : Type 0
Bytes = List ℕ

-- The bytes of an ASCII literal.
abbrev pub codes : String → Bytes
codes String.[] = []
codes (String.◌∷◌ c s) = code c ∷ codes s

-- bytes.HasPrefix(s, p)
unfoldable pub has_prefix : Bytes → Bytes → Bool
has_prefix [] s = true
has_prefix (a ∷ p) [] = false
has_prefix (a ∷ p) (b ∷ s) = a == b && has_prefix p s

-- bytes.Index(s, sep), `none` for -1.
unfoldable pub index : Bytes → Bytes → Option ℕ
unfolding has_prefix
index sep [] = if has_prefix sep [] then some 0 else none
index sep (c ∷ s) = if has_prefix sep (c ∷ s) then some 0 else Option.map suc (index sep s)

-- bytes.Count(s, c) for a single byte.
unfoldable pub count : ℕ → Bytes → ℕ
count b [] = 0
count b (c ∷ s) = (if c == b then 1 else 0) + count b s

pub has_prefix-append_self : (p t : Bytes) → has_prefix p (p ++ t) ≡ true
unfolding has_prefix
has_prefix-append_self [] t = refl
has_prefix-append_self (a ∷ p) t = ground (arith, has_prefix-append_self p t)

pub has_prefix-append :
    (p s t : Bytes) → length p ≤ length s → has_prefix p (s ++ t) ≡ has_prefix p s
unfolding has_prefix
has_prefix-append [] s t h = refl
has_prefix-append (a ∷ p) [] t h = absurd (omega arith)
has_prefix-append (a ∷ p) (b ∷ s) t h = rw (has_prefix-append p s t (omega arith))

pub has_prefix_split : (p s : Bytes) → has_prefix p s ≡ true → s ≡ p ++ drop (length p) s
unfolding has_prefix
has_prefix_split [] s h = refl
has_prefix_split (a ∷ p) [] h = ground arith
has_prefix_split (a ∷ p) (b ∷ s) h = ground (arith, has_prefix_split p s)

-- What stands behind a first `p` does not matter to the test.
pub has_prefix-middle :
    (p x t u : Bytes) → has_prefix p (x ++ (p ++ t)) ≡ has_prefix p (x ++ (p ++ u))
has_prefix-middle p x t u =
    let fits : length p ≤ length (x ++ p) = omega (arith, length-append x p) in
    ap (has_prefix p) (sym (append_assoc x p t))
    ∙ has_prefix-append p (x ++ p) t fits
    ∙ sym (has_prefix-append p (x ++ p) u fits)
    ∙ ap (has_prefix p) (append_assoc x p u)

pub index_cases :
    (sep : Bytes) (c : ℕ) (s : Bytes) (i : ℕ)
    → index sep (c ∷ s) ≡ some i
    → ((i ≡ 0) × (has_prefix sep (c ∷ s) ≡ true))
      ⊎ ((j : ℕ) × (i ≡ suc j) × (index sep s ≡ some j) × (has_prefix sep (c ∷ s) ≡ false))
unfolding index
index_cases sep c s i h = elim (Bool-cases (has_prefix sep (c ∷ s))) [
  | inl here ↦ inl (ground arith, here)
  | inr later ↦ inr (go (index sep s) refl later (rw later at h))
]
  where
    go :
        (o : Option ℕ)
        → index sep s ≡ o
        → has_prefix sep (c ∷ s) ≡ false
        → Option.map suc (index sep s) ≡ some i
        → (j : ℕ) × (i ≡ suc j) × (index sep s ≡ some j) × (has_prefix sep (c ∷ s) ≡ false)
    go none e later m = absurd (ground arith)
    go (some j) e later m = (j, ground arith, e, later)

index_later :
    (sep : Bytes) (c : ℕ) (s : Bytes) (j : ℕ)
    → has_prefix sep (c ∷ s) ≡ false
    → index sep s ≡ some j
    → index sep (c ∷ s) ≡ some (suc j)
unfolding index
index_later sep c s j not_here found = rw (not_here, found)

pub index_tail_none :
    (sep : Bytes) (c : ℕ) (s : Bytes) → index sep (c ∷ s) ≡ none → index sep s ≡ none
unfolding index
index_tail_none sep c s h = elim (Bool-cases (has_prefix sep (c ∷ s))) [
  | inl here ↦ ground arith
  | inr later ↦ map-eq-none (index sep s) (rw later at h)
]
  where
    map-eq-none : (o : Option ℕ) → Option.map suc o ≡ none → o ≡ none
    map-eq-none none e = refl
    map-eq-none (some x) e = cc

pub index-nil : (sep : Bytes) (i : ℕ) → index sep [] ≡ some i → (i ≡ 0) × (sep ≡ [])
unfolding index
index-nil [] i h = ground arith
index-nil (a ∷ sep) i h = ground arith

-- The text splits at the index that is found.
pub index_split :
    (sep s : Bytes) (i : ℕ)
    → index sep s ≡ some i
    → s ≡ take i s ++ (sep ++ drop (i + length sep) s)
index_split sep [] i h = let (at, empty) = index-nil sep i h in rw (at, empty)
index_split sep (c ∷ s) i h = elim (index_cases sep c s i h) [
  | inl (at, here) ↦ rw (at, zero-add) (has_prefix_split sep (c ∷ s) here)
  | inr (j, at, found, _) ↦ rw (at, suc-add) (ap (λ t. c ∷ t) (index_split sep s j found))
]

-- From the index on, the text begins with what was looked for.
pub drop-index :
    (sep s : Bytes) (i : ℕ) → index sep s ≡ some i → drop i s ≡ sep ++ drop (i + length sep) s
drop-index sep [] i h = let (at, empty) = index-nil sep i h in rw (at, empty)
drop-index sep (c ∷ s) i h = elim (index_cases sep c s i h) [
  | inl (at, here) ↦ rw (at, zero-add) (has_prefix_split sep (c ∷ s) here)
  | inr (j, at, found, _) ↦ rw (at, suc-add) (drop-index sep s j found)
]

pub index-append_self : (sep t : Bytes) → index sep (sep ++ t) ≡ some 0
unfolding index
index-append_self [] [] = refl
index-append_self [] (c ∷ t) = refl
index-append_self (a ∷ sep) t = rw (has_prefix-append_self (a ∷ sep) t)

-- The first occurrence stays the first one when another text is put behind it.
pub index-replace_rest :
    (sep s t : Bytes) (i : ℕ) → index sep s ≡ some i → index sep (take i s ++ (sep ++ t)) ≡ some i
index-replace_rest sep [] t i h =
    let (at, empty) = index-nil sep i h in rw at (index-append_self sep t)
index-replace_rest sep (c ∷ s) t i h = elim (index_cases sep c s i h) [
  | inl (at, here) ↦ rw at (index-append_self sep t)
  | inr (j, at, found, not_here) ↦
      let moved : has_prefix sep (c ∷ (take j s ++ (sep ++ t))) ≡ false =
        has_prefix-middle sep (c ∷ take j s) t (drop (j + length sep) s)
        ∙ ap (λ u. has_prefix sep (c ∷ u)) (sym (index_split sep s j found))
        ∙ not_here in
      rw at (index_later sep c _ j moved (index-replace_rest sep s t j found))
]

index-le : (sep s : Bytes) (i : ℕ) → index sep s ≡ some i → i ≤ length s
index-le sep [] i h = omega (arith, (index-nil sep i h).0)
index-le sep (c ∷ s) i h = elim (index_cases sep c s i h) [
  | inl (at, _) ↦ omega arith
  | inr (j, at, found, _) ↦ omega (arith, index-le sep s j found)
]

pub length-take-index : (sep s : Bytes) (i : ℕ) → index sep s ≡ some i → length (take i s) ≡ i
length-take-index sep s i h = omega (arith, length-take i s, index-le sep s i h)
