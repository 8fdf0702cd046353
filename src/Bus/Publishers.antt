-- ===== src/Bus/Publishers.antt =====
-- Lists of channels, of subscriptions and of the Publish calls under way.
use Prim.Native.String.{String}
use mathlib.Core.Option.{some-injective}
use docbuilder.Common.{
  ℕ, zero, suc, ◌≡◌, refl, sym, ap, ◌∙◌, Bool, true, false, not, ◌&&◌, none, some, List, [], ◌∷◌,
  if◌then◌else◌, ◌==◌, arith, Bool-cases, inl, inr, ◌⊎◌,
}
use docbuilder.Bus.{
  Types, Subscription, Publishing, has, without, channels, without_channel, nth, remove_at,
  replace_at,
}
use docbuilder.Bus.Steps.{is_awaited, find_start, no_publishing, serve, matching}

pub has-without_channel :
    (ss : List Subscription) (c d : ℕ)
    → has (channels (without_channel ss c)) d ≡ not (c == d) && has (channels ss) d
unfolding has channels without_channel
has-without_channel [] c d = ground arith
has-without_channel (s ∷ ss) c d = ground (arith, has-without_channel ss c d)

pub has-without : (cs : List ℕ) (c d : ℕ) → has (without cs c) d ≡ not (c == d) && has cs d
unfolding has without
has-without [] c d = ground arith
has-without (e ∷ cs) c d = ground (arith, has-without cs c d)

pub nth-remove_at :
    (ps : List Publishing) (i j : ℕ) (p : Publishing)
    → nth (remove_at ps i) j ≡ some p
    → (k : ℕ) × (nth ps k ≡ some p)
unfolding nth remove_at
nth-remove_at [] i j p h = absurd (cc)
nth-remove_at (q ∷ ps) zero j p h = (suc j, h)
nth-remove_at (q ∷ ps) (suc i) zero p h = (zero, h)
nth-remove_at (q ∷ ps) (suc i) (suc j) p h = let (k, at) = nth-remove_at ps i j p h in (suc k, at)

pub nth-replace_at :
    (ps : List Publishing) (i j : ℕ) (q p : Publishing)
    → nth (replace_at ps i q) j ≡ some p
    → (p ≡ q) ⊎ ((k : ℕ) × (nth ps k ≡ some p))
unfolding nth replace_at
nth-replace_at [] i j q p h = absurd (cc)
nth-replace_at (r ∷ ps) zero zero q p h = inl (sym (some-injective _ _ h))
nth-replace_at (r ∷ ps) zero (suc j) q p h = inr (suc j, h)
nth-replace_at (r ∷ ps) (suc i) zero q p h = inr (zero, h)
nth-replace_at (r ∷ ps) (suc i) (suc j) q p h = elim (nth-replace_at ps i j q p h) [
  | inl same ↦ inl same
  | inr (k, at) ↦ inr (suc k, at)
]

-- Who waits at a channel is one of the Publish calls.
pub awaited_by :
    (ps : List Publishing) (c : ℕ)
    → is_awaited ps c ≡ true
    → (k : ℕ) × (p : Publishing) × (nth ps k ≡ some p) × (has p.waiting c ≡ true)
unfolding is_awaited nth
awaited_by [] c h = absurd (cc)
awaited_by (p ∷ ps) c h = elim (Bool-cases (has p.waiting c)) [
  | inl here ↦ (zero, p, refl, here)
  | inr there ↦ let (k, q, at, waits) = awaited_by ps c (rw there at h) in (suc k, q, at, waits)
]

pub if_some :
    {A : Type 0} (t : Bool) (x y : A) → (if t then some x else none) ≡ some y → (t ≡ true) × (x ≡ y)
if_some true x y h = (refl, some-injective _ _ h)
if_some false x y h = absurd (cc)

pub if_none :
    {A : Type 0} (t : Bool) (x y : A)
    → (if t then none else some x) ≡ some y
    → (t ≡ false) × (x ≡ y)
if_none true x y h = absurd (cc)
if_none false x y h = (refl, some-injective _ _ h)

pub not_awaited : (ps : List Publishing) (c : ℕ) → no_publishing ps ≡ true → is_awaited ps c ≡ false
unfolding no_publishing is_awaited
not_awaited [] c h = refl
not_awaited (p ∷ ps) c h = absurd (cc)

pub find_start-has :
    (ss : List Subscription) (c : ℕ) (s : Subscription)
    → find_start ss c ≡ some s
    → (s.channel ≡ c) × (has (channels ss) c ≡ true)
unfolding find_start has channels
find_start-has [] c s h = absurd (cc)
find_start-has (r ∷ ss) c s h = elim (Bool-cases (r.channel == c)) [
  | inl here ↦
      let same : r ≡ s = some-injective _ _ (rw here at h) in
      (ap (λ t. t.channel) (sym same) ∙ ground (arith, here), ground (arith, here))
  | inr there ↦
      let (same, found) = find_start-has ss c s (rw there at h) in (same, ground (arith, found))
]

pub has-matching :
    (t : Types) (kind : String) (ss : List Subscription) (c : ℕ)
    → has (matching t kind ss) c ≡ true
    → has (channels ss) c ≡ true
unfolding matching has channels
has-matching t kind [] c h = h
has-matching t kind (s ∷ ss) c h = ground (arith, h, has-matching t kind ss c)

pub awaited-remove_at :
    (ps : List Publishing) (i c : ℕ) → is_awaited (remove_at ps i) c ≡ true → is_awaited ps c ≡ true
unfolding is_awaited remove_at
awaited-remove_at [] i c h = h
awaited-remove_at (p ∷ ps) zero c h = ground (arith, h)
awaited-remove_at (p ∷ ps) (suc i) c h = ground (arith, h, awaited-remove_at ps i c)

-- What a Publish that serves a channel still waits at, it waited at before.
pub awaited-serve :
    (ps : List Publishing) (i c d : ℕ) (p : Publishing)
    → nth ps i ≡ some p
    → is_awaited (replace_at ps i (serve c p)) d ≡ true
    → is_awaited ps d ≡ true
unfolding is_awaited nth replace_at
awaited-serve [] i c d p at h = h
awaited-serve (q ∷ ps) zero c d p at h =
    let same : q ≡ p = some-injective _ _ at in
    rw same (ground (arith, h, has-without p.waiting c d))
awaited-serve (q ∷ ps) (suc i) c d p at h = ground (arith, h, awaited-serve ps i c d p at)

pub awaited-nth :
    (ps : List Publishing) (i c : ℕ) (p : Publishing)
    → nth ps i ≡ some p
    → has p.waiting c ≡ true
    → is_awaited ps c ≡ true
unfolding is_awaited nth
awaited-nth [] i c p at h = absurd (cc)
awaited-nth (q ∷ ps) zero c p at h = let same : q ≡ p = some-injective _ _ at in rw (same, h) refl
awaited-nth (q ∷ ps) (suc i) c p at h = ground (arith, awaited-nth ps i c p at h)
