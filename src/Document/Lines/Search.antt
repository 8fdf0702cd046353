-- ===== src/Document/Lines/Search.antt =====
-- The search in one line, against a single pass over it.
use docbuilder.Common.{
  ℕ, zero, suc, ◌+◌, ◌%◌, ◌≤◌, ◌<◌, Bool, true, false, not, ◌&&◌, ◌||◌, ◌≡◌, ◌≢◌, refl, sym, ap,
  ◌∙◌, Option, none, some, [], ◌∷◌, ◌++◌, if◌then◌else◌, ◌==◌, leb, length, take, drop, take-add,
  drop-add, arith, Bool-cases, inl, inr,
}
use docbuilder.Common.Bytes.{
  Bytes, has_prefix, index, count, index_cases, index_tail_none, index-nil, drop-index,
  has_prefix-append_self,
}
use docbuilder.Document.Lines.{is_inside_inline_code, find_outside}

-- Whether the number of backticks so far is even, after some more bytes
evenness : Bool → Bytes → Bool
evenness even [] = even
evenness even (c ∷ s) = evenness (if c == b'`' then not even else even) s

-- Whether the text begins at a byte of the line with an even number of backticks in front of it.
unfoldable pub stands_outside : Bool → Bytes → Bytes → Bool
stands_outside even target [] = even && has_prefix target []
stands_outside even target (c ∷ s) =
    (even && has_prefix target (c ∷ s))
    || stands_outside (if c == b'`' then not even else even) target s

odd_suc : (n : ℕ) → (suc n % 2 == 1) ≡ not (n % 2 == 1)
odd_suc n = ground arith

evenness-count :
    (even : Bool) (xs : Bytes)
    → evenness even xs ≡ (if count b'`' xs % 2 == 1 then not even else even)
unfolding evenness count
evenness-count even [] = refl
evenness-count even (c ∷ s) =
    ground (arith, evenness-count even s, evenness-count (not even) s, odd_suc (count b'`' s))

evenness-append :
    (even : Bool) (xs ys : Bytes) → evenness even (xs ++ ys) ≡ evenness (evenness even xs) ys
unfolding evenness
evenness-append even [] ys = refl
evenness-append even (c ∷ xs) ys = evenness-append (if c == b'`' then not even else even) xs ys

no_and : (a b : Bool) → (a && false || b) ≡ b
no_and a b = ground arith

index-none-has_prefix :
    (target : Bytes) (c : ℕ) (s : Bytes)
    → index target (c ∷ s) ≡ none
    → has_prefix target (c ∷ s) ≡ false
unfolding index
index-none-has_prefix target c s h = elim (Bool-cases (has_prefix target (c ∷ s))) [
  | inl here ↦ ground arith
  | inr later ↦ later
]

stands_outside-none :
    (even : Bool) (target s : Bytes) → index target s ≡ none → stands_outside even target s ≡ false
unfolding stands_outside
stands_outside-none even target [] h = unfold index in ground arith
stands_outside-none even target (c ∷ s) h =
    let rest =
      stands_outside-none (if c == b'`' then not even else even) target s
        (index_tail_none target c s h) in
    rw (index-none-has_prefix target c s h, rest) (ground arith)

stands_outside-some :
    (even : Bool) (target s : Bytes) (k : ℕ)
    → index target s ≡ some k
    → stands_outside even target s ≡ stands_outside (evenness even (take k s)) target (drop k s)
unfolding stands_outside evenness
stands_outside-some even target [] k h = rw (index-nil target k h).0
stands_outside-some even target (c ∷ s) k h = elim (index_cases target c s k h) [
  | inl (at, _) ↦ rw at
  | inr (j, at, found, later) ↦
      let even' = if c == b'`' then not even else even in
      rw (at, later) (no_and even _ ∙ stands_outside-some even' target s j found)
]

-- At an occurrence, an even number of backticks is all that is wanted.
stands_outside-here :
    (even : Bool) (target x : Bytes)
    → target ≢ []
    → has_prefix target x ≡ true
    → stands_outside even target x
      ≡ (if even then true else stands_outside (evenness even (take 1 x)) target (drop 1 x))
unfolding stands_outside evenness
stands_outside-here even [] x ne h = absurd (ne refl)
stands_outside-here even (a ∷ target) [] ne h = unfold has_prefix in ground arith
stands_outside-here even (a ∷ target) (c ∷ s) ne h = rw h (ground arith)

stands_outside-nil :
    (even : Bool) (target : Bytes) → target ≢ [] → stands_outside even target [] ≡ false
unfolding stands_outside has_prefix
stands_outside-nil even [] ne = absurd (ne refl)
stands_outside-nil even (a ∷ target) ne = ground arith

drop-all : (n : ℕ) (xs : Bytes) → length xs ≤ n → drop n xs ≡ []
drop-all zero [] h = refl
drop-all zero (x ∷ xs) h = absurd (omega (arith, h))
drop-all (suc n) [] h = refl
drop-all (suc n) (x ∷ xs) h = drop-all n xs (omega (arith, h))

-- What is left of the line from byte `from` on
abbrev outside_from : Bytes → Bytes → ℕ → Bool
outside_from target line from =
    stands_outside (evenness true (take from line)) target (drop from line)

not_inside :
    (line : Bytes) (at : ℕ) → not (is_inside_inline_code line at) ≡ evenness true (take at line)
unfolding is_inside_inline_code
not_inside line at = ground (arith, evenness-count true (take at line))

outside_from-move :
    (target line : Bytes) (from k : ℕ)
    → index target (drop from line) ≡ some k
    → outside_from target line from ≡ outside_from target line (from + k)
outside_from-move target line from k h =
    stands_outside-some (evenness true (take from line)) target (drop from line) k h
    ∙ ap (λ e. stands_outside e target (drop k (drop from line)))
        (sym (evenness-append true (take from line) (take k (drop from line)))
          ∙ ap (evenness true) (sym (take-add from k line)))
    ∙ ap (λ x. stands_outside (evenness true (take (from + k) line)) target x)
        (sym (drop-add from k line))

outside_from-next :
    (target line : Bytes) (at : ℕ)
    → target ≢ []
    → has_prefix target (drop at line) ≡ true
    → outside_from target line at
      ≡ (if evenness true (take at line) then true else outside_from target line (at + 1))
outside_from-next target line at ne h =
    stands_outside-here (evenness true (take at line)) target (drop at line) ne h
    ∙ ap (λ b. if evenness true (take at line) then true else b)
        (ap (λ e. stands_outside e target (drop 1 (drop at line)))
            (sym (evenness-append true (take at line) (take 1 (drop at line)))
              ∙ ap (evenness true) (sym (take-add at 1 line)))
          ∙ ap (λ x. stands_outside (evenness true (take (at + 1) line)) target x)
              (sym (drop-add at 1 line)))

-- How the tests of a round of the loop lead to its result.
round_is :
    (even full again_is here_is : Bool) (again : Option Bool)
    → here_is ≡ (if even then true else again_is)
    → (full ≡ true → again_is ≡ false)
    → (full ≡ false → again ≡ some again_is)
    → (if even then some true else if full then some false else again) ≡ some here_is
round_is even full again_is here_is again h e r = ground (arith, h, e, r)

leb-false : (n m : ℕ) → leb n m ≡ false → m < n
leb-false n m h = ground arith

leb-true : (n m : ℕ) → leb n m ≡ true → n ≤ m
leb-true n m h = ground arith

module _ (target line : Bytes) (ne : target ≢ []) where
  outside_from-end : (at : ℕ) → length line ≤ at → outside_from target line at ≡ false
  outside_from-end at h =
      ap (stands_outside (evenness true (take at line)) target) (drop-all at line h)
      ∙ stands_outside-nil (evenness true (take at line)) target ne

  occurs_at :
      (from k : ℕ)
      → index target (drop from line) ≡ some k
      → has_prefix target (drop (from + k) line) ≡ true
  occurs_at from k h =
      ap (has_prefix target) (drop-add from k line ∙ drop-index target (drop from line) k h)
      ∙ has_prefix-append_self target (drop (k + length target) (drop from line))

  find_outside-step :
      (fuel from : ℕ) (o : Option ℕ)
      → index target (drop from line) ≡ o
      → ((k : ℕ)
          → from + k + 1 < length line
          → find_outside fuel target line (from + k + 1)
            ≡ some (outside_from target line (from + k + 1)))
      → find_outside (suc fuel) target line from ≡ some (outside_from target line from)
  unfolding find_outside
  find_outside-step fuel from none found ih =
      rw (find_outside, found)
        (ap some (
          sym (stands_outside-none (evenness true (take from line)) target (drop from line) found)))
  find_outside-step fuel from (some k) found ih =
      let at = from + k in
      let here =
        outside_from-move target line from k found
        ∙ outside_from-next target line at ne (occurs_at from k found) in
      rw (find_outside, found, not_inside line at)
        (round_is (evenness true (take at line)) (leb (length line) (at + 1))
          (outside_from target line (at + 1)) (outside_from target line from)
          (find_outside fuel target line (at + 1)) here
          (λ full. outside_from-end (at + 1) (leb-true (length line) (at + 1) full))
          (λ room. ih k (leb-false (length line) (at + 1) room)))

  find_outside-outside_from :
      (fuel from : ℕ)
      → from ≤ length line
      → length line < fuel + from
      → find_outside fuel target line from ≡ some (outside_from target line from)
  find_outside-outside_from zero from b h = absurd (omega (arith, b, h))
  find_outside-outside_from (suc fuel) from b h = find_outside-step fuel from _ refl (λ k room.
      find_outside-outside_from fuel (from + k + 1) (omega (arith, room)) (omega (arith, h)))

  -- The loop over the occurrences of a text that is not empty, in a line, ends within the length of
  -- the line, and it finds one outside inline code exactly when the text begins somewhere in the
  -- line with an even number of backticks in front of it.
  pub find_outside-stands_outside :
      find_outside (suc (length line)) target line 0 ≡ some (stands_outside true target line)
  find_outside-stands_outside =
      find_outside-outside_from (suc (length line)) 0 (omega arith) (omega arith)
      ∙ (unfold evenness in refl)
