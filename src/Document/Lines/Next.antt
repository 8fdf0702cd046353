-- ===== src/Document/Lines/Next.antt =====
-- The line that `FindNextLineContaining` finds.
use docbuilder.Common.{
  ℕ, zero, suc, ◌+◌, ◌-◌, ◌<◌, Bool, true, false, not, ◌&&◌, ◌≡◌, ◌≢◌, inl, inr, refl, ap, subst,
  List, [], ◌∷◌, none, length, drop, arith, Bool-cases,
}
use docbuilder.Common.Int.{ℤ}
use docbuilder.Common.Bytes.{Bytes}
use docbuilder.Document.Lines.{
  split_lines, compute_skippable_lines, is_found, has_outside, find_line, clamp,
  find_next_line_containing,
}
use docbuilder.Document.Lines.Search.{stands_outside, find_outside-stands_outside}

-- Whether line number j, from 0, is not skipped and has the text outside inline code.
unfoldable pub good_at : Bytes → List Bytes → List Bool → ℕ → Bool
good_at target [] flags j = false
good_at target (line ∷ lines) [] j = false
good_at target (line ∷ lines) (skip ∷ flags) zero = not skip && stands_outside true target line
good_at target (line ∷ lines) (skip ∷ flags) (suc j) = good_at target lines flags j

-- A result for lines that begin at number i + 1: the number of the first good one, or 1.
pub data IsFirst (target : Bytes) (i : ℕ) (lines : List Bytes) (flags : List Bool)
    : ℕ → Type 0 where
  nowhere : ((j : ℕ) → good_at target lines flags j ≡ false) → IsFirst target i lines flags 1
  found_at :
      (j : ℕ)
      → good_at target lines flags j ≡ true
      → ((k : ℕ) → k < j → good_at target lines flags k ≡ false)
      → IsFirst target i lines flags (i + j + 1)

-- A good line is not before the lines that follow one that is not good.
good_at-behind :
    (target line : Bytes) (lines : List Bytes) (skip : Bool) (flags : List Bool) (bound : ℕ)
    → (not skip && stands_outside true target line) ≡ false
    → ((j : ℕ) → j < bound → good_at target lines flags j ≡ false)
    → (j : ℕ) → j < suc bound
    → good_at target (line ∷ lines) (skip ∷ flags) j ≡ false
unfolding good_at
good_at-behind target line lines skip flags bound bad rest zero h = bad
good_at-behind target line lines skip flags bound bad rest (suc j) h = rest j (omega (arith, h))

later-IsFirst :
    (target : Bytes) (i : ℕ) (line : Bytes) (lines : List Bytes) (skip : Bool) (flags : List Bool)
    (r : ℕ)
    → (not skip && stands_outside true target line) ≡ false
    → IsFirst target (suc i) lines flags r
    → IsFirst target i (line ∷ lines) (skip ∷ flags) r
unfolding good_at
later-IsFirst target i line lines skip flags r bad (nowhere none_is) =
    nowhere
      (λ j. good_at-behind target line lines skip flags j bad (λ k h. none_is k) j (omega arith))
later-IsFirst target i line lines skip flags r bad (found_at j good before) =
    let e : i + suc j + 1 ≡ suc i + j + 1 = omega arith in
    subst (IsFirst target i (line ∷ lines) (skip ∷ flags)) e
      (found_at (suc j) good (good_at-behind target line lines skip flags j bad before))

module _ (target : Bytes) (ne : target ≢ []) where
  has_outside-stands_outside :
      (line : Bytes) → has_outside target line ≡ stands_outside true target line
  unfolding has_outside is_found
  has_outside-stands_outside line = ap is_found (find_outside-stands_outside target line ne)

  find_line-IsFirst :
      (i : ℕ) (lines : List Bytes) (flags : List Bool)
      → IsFirst target i lines flags (find_line target i lines flags)
  unfolding find_line good_at
  find_line-IsFirst i [] flags = nowhere (λ j. refl)
  find_line-IsFirst i (line ∷ lines) [] = nowhere (λ j. refl)
  find_line-IsFirst i (line ∷ lines) (skip ∷ flags) =
      let rest = find_line-IsFirst (suc i) lines flags in
      rw (has_outside-stands_outside line)
        (elim (Bool-cases (not skip && stands_outside true target line)) [
          | inl good ↦
              let e : i + 0 + 1 ≡ suc i = omega arith in
              rw good (
                subst (IsFirst target i (line ∷ lines) (skip ∷ flags)) e
                  (found_at 0 good (λ k h. absurd (omega (arith, h)))))
          | inr bad ↦ rw bad (later-IsFirst target i line lines skip flags _ bad rest)
        ])

-- For a text and a body that are not empty: `FindNextLineContaining` returns the number of the first
-- line, from the start line on (which is moved into the body), that is not skipped and holds the
-- text at a byte with an even number of backticks in front of it; if there is none, it returns 1.
pub find_next_line_containing-IsFirst :
    (target : Bytes) (start : ℤ) (body : Bytes)
    → target ≢ []
    → body ≢ []
    → let lines = split_lines [] body in
      let first = clamp start (length lines) - 1 in
      IsFirst target first
        (drop first lines)
        (drop first (compute_skippable_lines none lines))
        (find_next_line_containing target start body)
unfolding find_next_line_containing
find_next_line_containing-IsFirst [] start body ne nb = absurd (ne refl)
find_next_line_containing-IsFirst (a ∷ t) start [] ne nb = absurd (nb refl)
find_next_line_containing-IsFirst (a ∷ t) start (c ∷ s) ne nb = find_line-IsFirst (a ∷ t) ne _ _ _
