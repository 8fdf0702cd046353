-- ===== src/Bus/Invariant/Sends.antt =====
-- The invariant is kept by the steps of Publish and by receiving.
use mathlib.Core.Option.{some-injective, none-ne-some}
use docbuilder.Common.{
  ℕ, ◌≡◌, subst, Bool, true, false, none, some, List, [], ◌∷◌, ◌++◌, if◌then◌else◌, ◌==◌, ltb,
  length, arith, Bool-cases, Option-cases, inl, inr,
}
use docbuilder.Bus.{
  Types, Event, Publishing, Bus, has, channels, set_at, nth, remove_at, replace_at,
}
use docbuilder.Bus.Steps.{
  is_awaited, begin_publish, lock_publish, serve, matching, start_delivery, take_first, deliver,
  deliver_found, send, cancel_publish, end_publish, receive,
}
use docbuilder.Bus.Publishers.{
  if_some, if_none, has-matching, awaited-remove_at, awaited-serve, awaited-nth,
}
use docbuilder.Bus.Invariant.{IsSafe}

-- Where only the Publish calls, the buffers and what was received change
pub moved-IsSafe :
    (b : Bus) (arriving : List Event) (ps : List Publishing) (buffers received : ℕ → List Event)
    → IsSafe b
    → ((c : ℕ) → is_awaited ps c ≡ true → has (channels b.subs) c ≡ true)
    → IsSafe
        (record b { arriving = arriving; publishing = ps; buffers = buffers; received = received })
moved-IsSafe b arriving ps buffers received s h = record {
  quiet = s.quiet;
  is_open = s.is_open;
  awaited = h;
  emptied = s.emptied;
  locked = s.locked;
  closing_locked = s.closing_locked;
  starting_open = s.starting_open;
  starting_apart = s.starting_apart;
  known = s.known;
}

pub begin_publish-IsSafe :
    (e : Event) (b b' : Bus) → IsSafe b → begin_publish e b ≡ some b' → IsSafe b'
unfolding begin_publish
begin_publish-IsSafe e b b' s h =
    let (still_open, result) = if_none _ _ b' h in
    subst IsSafe result
      (moved-IsSafe b (e ∷ b.arriving) b.publishing b.buffers b.received s s.awaited)

pub lock_publish-IsSafe :
    (t : Types) (i : ℕ) (b b' : Bus) → IsSafe b → lock_publish t i b ≡ some b' → IsSafe b'
unfolding lock_publish start_delivery
lock_publish-IsSafe t i b b' s h = elim (Option-cases (nth b.arriving i)) [
  | inl missing ↦ absurd (none-ne-some _ (rw missing at h))
  | inr (e, at) ↦
      subst IsSafe (some-injective _ _ (rw at at h))
        (moved-IsSafe b (remove_at b.arriving i) _ b.buffers b.received s (waits_at_subs e))
]
  where
    waits_at_subs :
        (e : Event) (c : ℕ)
        → is_awaited
            (record { event = e; served = []; waiting = matching t e.kind b.subs } ∷ b.publishing)
            c
          ≡ true
        → has (channels b.subs) c ≡ true
    waits_at_subs e c h =
        unfold is_awaited in ground (arith, h, has-matching t e.kind b.subs c, s.awaited c)

pub cancel_publish-IsSafe :
    (i : ℕ) (b b' : Bus) → IsSafe b → cancel_publish i b ≡ some b' → IsSafe b'
unfolding cancel_publish
cancel_publish-IsSafe i b b' s h = subst IsSafe (some-injective _ _ h) (
    moved-IsSafe b b.arriving (remove_at b.publishing i) b.buffers b.received s
      (λ c w. s.awaited c (awaited-remove_at b.publishing i c w)))

pub end_publish-IsSafe : (i : ℕ) (b b' : Bus) → IsSafe b → end_publish i b ≡ some b' → IsSafe b'
unfolding end_publish
end_publish-IsSafe i b b' s h =
    let (served, result) = if_some _ _ b' h in
    subst IsSafe result (
      moved-IsSafe b b.arriving (remove_at b.publishing i) b.buffers b.received s
        (λ c w. s.awaited c (awaited-remove_at b.publishing i c w)))

pub receive-IsSafe : (c : ℕ) (b b' : Bus) → IsSafe b → receive c b ≡ some b' → IsSafe b'
unfolding receive
receive-IsSafe c b b' s h = go (b.buffers c) h
  where
    go : (es : List Event) → take_first c es b ≡ some b' → IsSafe b'
    go [] h = absurd (unfold take_first in none-ne-some _ h)
    go (e ∷ es) h =
        subst IsSafe (some-injective _ _ (unfold take_first in h))
          (moved-IsSafe b b.arriving b.publishing _ _ s s.awaited)

-- A send that goes on hits an open channel.
deliver-IsSafe :
    (i c : ℕ) (taken : Bool) (p : Publishing) (b b' : Bus)
    → IsSafe b
    → nth b.publishing i ≡ some p
    → has p.waiting c ≡ true
    → deliver i c taken p b ≡ some b'
    → IsSafe b'
unfolding deliver
deliver-IsSafe i c taken p b b' s at waits h =
    let subscribed = s.awaited c (awaited-nth b.publishing i c p at waits) in
    let still = λ (d : ℕ) (w : is_awaited (replace_at b.publishing i (serve c p)) d ≡ true).
      s.awaited d (awaited-serve b.publishing i c d p at w) in
    go taken (rw (s.is_open c subscribed) at h) still
  where
    go :
        (taken : Bool)
        → (if taken
            then (if length (b.buffers c) == 0
                then some (record b {
                  publishing = replace_at b.publishing i (serve c p);
                  received = set_at b.received c (b.received c ++ (p.event ∷ []));
                })
                else none)
            else if ltb (length (b.buffers c)) (b.capacity c)
            then some (record b {
              publishing = replace_at b.publishing i (serve c p);
              buffers = set_at b.buffers c (b.buffers c ++ (p.event ∷ []));
            })
            else none)
          ≡ some b'
        → ((d : ℕ)
            → is_awaited (replace_at b.publishing i (serve c p)) d ≡ true
            → has (channels b.subs) d ≡ true)
        → IsSafe b'
    go true h still =
        let (empty, result) = if_some _ _ b' h in
        subst IsSafe result
          (moved-IsSafe b b.arriving (replace_at b.publishing i (serve c p)) b.buffers _ s still)
    go false h still =
        let (room, result) = if_some _ _ b' h in
        subst IsSafe result
          (moved-IsSafe b b.arriving (replace_at b.publishing i (serve c p)) _ b.received s still)

pub send-IsSafe :
    (i c : ℕ) (taken : Bool) (b b' : Bus) → IsSafe b → send i c taken b ≡ some b' → IsSafe b'
unfolding send deliver_found
send-IsSafe i c taken b b' s h = elim (Option-cases (nth b.publishing i)) [
  | inl missing ↦ absurd (none-ne-some _ (rw missing at h))
  | inr (p, at) ↦ elim (Bool-cases (has p.waiting c)) [
    | inl waits ↦ deliver-IsSafe i c taken p b b' s at waits (rw (at, waits) at h)
    | inr not_so ↦ absurd (none-ne-some _ (rw (at, not_so) at h))
  ]
]
