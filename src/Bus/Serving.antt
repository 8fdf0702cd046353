-- ===== src/Bus/Serving.antt =====
-- What a Publish under way has sent, and that others keep it.
use text.Mathlib.TextEquality.{eq_iff}
use mathlib.Core.Option.{some-injective, none-ne-some}
use docbuilder.Common.{
  ℕ, ◌≡◌, refl, sym, ap, ◌∙◌, subst, Bool, true, false, ◌&&◌, ◌||◌, none, some, List, [], ◌∷◌, ◌++◌,
  if◌then◌else◌, ◌==◌, ltb, length, arith, Bool-cases, inl, inr,
}
use docbuilder.Common.Text.{str_eq}
use docbuilder.Bus.{Types, Event, Publishing, Bus, has, without, set_at, nth, remove_at, replace_at}
use docbuilder.Bus.Steps.{no_publishing, serve, matching, deliver}
use docbuilder.Bus.Publishers.{has-without, nth-remove_at, nth-replace_at, if_some}

-- An event is among others.
unfoldable pub holds : List Event → Event → Bool
holds [] e = false
holds (f ∷ fs) e = (f.number == e.number) && str_eq f.kind e.kind || holds fs e

-- All that a channel was sent
abbrev pub sent : Bus → ℕ → List Event
sent b c = b.received c ++ b.buffers c

-- A Publish has sent its event to the channels it has served, and has still to serve the others that
-- match.
pub record IsServing (t : Types) (b : Bus) (p : Publishing) : Type 0 where
  pub served_sent : (c : ℕ) → has p.served c ≡ true → holds (sent b c) p.event ≡ true
  pub covers :
      (c : ℕ)
      → has (matching t p.event.kind b.subs) c ≡ true
      → has p.waiting c || has p.served c ≡ true

unfoldable pub AllServing : Types → Bus → Type 0
AllServing t b = (i : ℕ) (p : Publishing) → nth b.publishing i ≡ some p → IsServing t b p

pub holds-append : (es fs : List Event) (e : Event) → holds (es ++ fs) e ≡ holds es e || holds fs e
unfolding holds
holds-append [] fs e = refl
holds-append (f ∷ es) fs e = ground (arith, holds-append es fs e)

pub holds_self : (e : Event) → holds (e ∷ []) e ≡ true
unfolding holds
holds_self e = ground (arith, eq_iff e.kind e.kind)

-- A Publish that nothing has happened to, but that channels were sent more
pub still-IsServing :
    (t : Types) (b b' : Bus) (p : Publishing)
    → b'.subs ≡ b.subs
    → ((c : ℕ) → holds (sent b c) p.event ≡ true → holds (sent b' c) p.event ≡ true)
    → IsServing t b p
    → IsServing t b' p
still-IsServing t b b' p subs more s = record {
  served_sent = λ c h. more c (s.served_sent c h);
  covers = λ c h. s.covers c (sym (ap (λ ss. has (matching t p.event.kind ss) c) subs) ∙ h);
}

pub unchanged :
    (t : Types) (b b' : Bus)
    → b'.publishing ≡ b.publishing
    → b'.subs ≡ b.subs
    → ((c : ℕ) → sent b' c ≡ sent b c)
    → AllServing t b
    → AllServing t b'
unfolding AllServing
unchanged t b b' publishing subs same s i p at =
    still-IsServing t b b' p subs (λ c h. ap (λ es. holds es p.event) (same c) ∙ h)
      (s i p (ap (λ ps. nth ps i) (sym publishing) ∙ at))

-- No Publish, nothing to show
pub idle : (t : Types) (b : Bus) → no_publishing b.publishing ≡ true → AllServing t b
unfolding AllServing
idle t b free i p at = absurd (none_there b.publishing free at)
  where
    none_there : (ps : List Publishing) → no_publishing ps ≡ true → nth ps i ≡ some p → ⊥
    none_there [] f at = unfold nth in none-ne-some _ at
    none_there (q ∷ ps) f at = unfold no_publishing in absurd (cc)

pub removed :
    (t : Types) (b : Bus) (i : ℕ)
    → AllServing t b
    → AllServing t (record b { publishing = remove_at b.publishing i })
unfolding AllServing
removed t b i s j p at =
    let (k, found) = nth-remove_at b.publishing i j p at in
    let old = s k p found in record { served_sent = old.served_sent; covers = old.covers }

-- A bus in which the Publish at place i has served c, by a buffer or a receiver
unfoldable pub served_at : ℕ → ℕ → Publishing → (buffers received : ℕ → List Event) → Bus → Bus
served_at i c p buffers received b = record b {
  publishing = replace_at b.publishing i (serve c p);
  buffers = buffers;
  received = received;
}

pub served_at-AllServing :
    (t : Types) (i c : ℕ) (p : Publishing) (buffers received : ℕ → List Event) (b : Bus)
    → nth b.publishing i ≡ some p
    → ((d : ℕ) (e : Event) → holds (sent b d) e ≡ true → holds (received d ++ buffers d) e ≡ true)
    → holds (received c ++ buffers c) p.event ≡ true
    → AllServing t b
    → AllServing t (served_at i c p buffers received b)
unfolding AllServing served_at
served_at-AllServing t i c p buffers received b at more here s j q found =
    elim (nth-replace_at b.publishing i j (serve c p) q found) [
      | inl same ↦ subst (IsServing t (served_at i c p buffers received b)) (sym same) new_serving
      | inr (k, there) ↦ still-IsServing t b _ q refl (λ d h. more d q.event h) (s k q there)
    ]
  where
    old : IsServing t b p
    old = s i p at

    is_sent : (d : ℕ) → has (c ∷ p.served) d ≡ true → holds (received d ++ buffers d) p.event ≡ true
    is_sent d h = elim (Bool-cases (c == d)) [
      | inl eq ↦
          let same : c ≡ d = ground (arith, eq) in
          subst (λ x. holds (received x ++ buffers x) p.event ≡ true) same here
      | inr not_so ↦ more d p.event (old.served_sent d (unfold has in ground (arith, h, not_so)))
    ]

    has_cons : (d : ℕ) → has (c ∷ p.served) d ≡ (c == d) || has p.served d
    has_cons d = unfold has in refl

    covered :
        (d : ℕ)
        → has (matching t p.event.kind b.subs) d ≡ true
        → has (without p.waiting c) d || has (c ∷ p.served) d ≡ true
    covered d h = ground (arith, old.covers d h, has-without p.waiting c d, has_cons d)

    new_serving : IsServing t (served_at i c p buffers received b) (serve c p)
    new_serving = record { served_sent = is_sent; covers = covered }

pub buffered_more :
    (b : Bus) (c : ℕ) (e : Event) (d : ℕ) (f : Event)
    → holds (sent b d) f ≡ true
    → holds (b.received d ++ set_at b.buffers c (b.buffers c ++ (e ∷ [])) d) f ≡ true
buffered_more b c e d f h = elim (Bool-cases (c == d)) [
  | inl eq ↦
      let same : c ≡ d = ground (arith, eq) in
      rw eq (
        subst (λ x. holds (b.received d ++ (b.buffers x ++ (e ∷ []))) f ≡ true) (sym same)
          (ground (
            arith,
            h,
            holds-append (b.received d) (b.buffers d ++ (e ∷ [])) f,
            holds-append (b.buffers d) (e ∷ []) f,
            holds-append (b.received d) (b.buffers d) f,
          )))
  | inr not_so ↦ rw not_so h
]

pub handed_more :
    (b : Bus) (c : ℕ) (e : Event) (d : ℕ) (f : Event)
    → holds (sent b d) f ≡ true
    → holds (set_at b.received c (b.received c ++ (e ∷ [])) d ++ b.buffers d) f ≡ true
handed_more b c e d f h = elim (Bool-cases (c == d)) [
  | inl eq ↦
      let same : c ≡ d = ground (arith, eq) in
      rw eq (
        subst (λ x. holds ((b.received x ++ (e ∷ [])) ++ b.buffers d) f ≡ true) (sym same)
          (ground (
            arith,
            h,
            holds-append (b.received d ++ (e ∷ [])) (b.buffers d) f,
            holds-append (b.received d) (e ∷ []) f,
            holds-append (b.received d) (b.buffers d) f,
          )))
  | inr not_so ↦ rw not_so h
]

pub same_place : (c : ℕ) → (c == c) ≡ true
same_place c = ground arith

pub buffered_here :
    (b : Bus) (c : ℕ) (e : Event)
    → holds (b.received c ++ set_at b.buffers c (b.buffers c ++ (e ∷ [])) c) e ≡ true
buffered_here b c e = rw (same_place c) (
    ground (
      arith,
      holds_self e,
      holds-append (b.received c) (b.buffers c ++ (e ∷ [])) e,
      holds-append (b.buffers c) (e ∷ []) e,
    ))

pub handed_here :
    (b : Bus) (c : ℕ) (e : Event)
    → holds (set_at b.received c (b.received c ++ (e ∷ [])) c ++ b.buffers c) e ≡ true
handed_here b c e = rw (same_place c) (
    ground (
      arith,
      holds_self e,
      holds-append (b.received c ++ (e ∷ [])) (b.buffers c) e,
      holds-append (b.received c) (e ∷ []) e,
    ))

pub deliver-AllServing :
    (t : Types) (i c : ℕ) (taken : Bool) (p : Publishing) (b b' : Bus)
    → nth b.publishing i ≡ some p
    → deliver i c taken p b ≡ some b'
    → AllServing t b
    → AllServing t b'
unfolding deliver served_at
deliver-AllServing t i c taken p b b' at h s = elim (Bool-cases (has b.closed c)) [
  | inl closed ↦
      subst (AllServing t) (some-injective _ _ (rw closed at h))
        (unchanged t b _ refl refl (λ d. refl) s)
  | inr is_open ↦ go taken (rw is_open at h)
]
  where
    go :
        (taken : Bool)
        → (if taken
            then (if length (b.buffers c) == 0
                then some (
                    served_at i c p b.buffers
                      (set_at b.received c (b.received c ++ (p.event ∷ [])))
                      b)
                else none)
            else if ltb (length (b.buffers c)) (b.capacity c)
            then some
                (served_at i c p (set_at b.buffers c (b.buffers c ++ (p.event ∷ []))) b.received b)
            else none)
          ≡ some b'
        → AllServing t b'
    go true h =
        let (empty, result) = if_some _ _ b' h in
        subst (AllServing t) result (
          served_at-AllServing t i c p _ _ b at (handed_more b c p.event) (handed_here b c p.event)
            s)
    go false h =
        let (room, result) = if_some _ _ b' h in
        subst (AllServing t) result (
          served_at-AllServing t i c p _ _ b at (buffered_more b c p.event)
            (buffered_here b c p.event) s)
