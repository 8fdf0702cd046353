-- ===== src/Bus/Delivery.antt =====
-- A Publish that ends without an error has served all subscriptions that match.
use Prim.Native.String.{String}
use mathlib.Core.List.{append_assoc}
use mathlib.Core.Option.{some-injective, none-ne-some}
use docbuilder.Common.{
  ℕ, zero, suc, ◌≡◌, refl, sym, ap, ◌∙◌, subst, Bool, true, false, some, List, [], ◌∷◌, ◌++◌,
  if◌then◌else◌, ◌==◌, length, arith, Bool-cases, Option-cases, inl, inr,
}
use docbuilder.Bus.{
  Types, Event, Subscription, Publishing, Bus, new_bus, has, without_channel, set_at, nth,
  remove_at,
}
use docbuilder.Bus.Steps.{
  close_channel, find_start, no_publishing, register, register_found, begin_subscribe,
  end_subscribe, unsubscribe, begin_publish, matching, start_delivery, take_first, deliver_found,
  close_first, all_served, lock_publish, send, cancel_publish, end_publish, receive, begin_close,
  lock_close, close_next, Action, to_subscribe, to_register, to_unsubscribe, to_receive, to_publish,
  to_lock, to_cancel, to_finish, to_send, to_close, to_lock_close, to_close_next, step, Reaches,
  starts, goes_on,
}
use docbuilder.Bus.Publishers.{if_some, if_none}
use docbuilder.Bus.Serving.{
  holds, sent, IsServing, AllServing, still-IsServing, unchanged, idle, removed, deliver-AllServing,
}

close_channel-keeps :
    (c : ℕ) (b : Bus)
    → ((close_channel c b).publishing ≡ b.publishing)
      × ((close_channel c b).subs ≡ b.subs)
      × ((d : ℕ) → sent (close_channel c b) d ≡ sent b d)
unfolding close_channel
close_channel-keeps c b = elim (Bool-cases (has b.closed c)) [
  | inl closed ↦ (rw closed refl, rw closed refl, λ d. rw closed refl)
  | inr is_open ↦ (rw is_open refl, rw is_open refl, λ d. rw is_open refl)
]

close_channel-AllServing :
    (t : Types) (c : ℕ) (b : Bus) → AllServing t b → AllServing t (close_channel c b)
close_channel-AllServing t c b s =
    let (publishing, subs, same) = close_channel-keeps c b in
    unchanged t b (close_channel c b) publishing subs same s

begin_subscribe-AllServing :
    (t : Types) (kind : String) (buffer : ℕ) (b : Bus)
    → AllServing t b
    → AllServing t (begin_subscribe kind buffer b)
unfolding begin_subscribe
begin_subscribe-AllServing t kind buffer b s = go b.is_closed
  where
    made : Bus
    made = record b { next_id = suc b.next_id; capacity = set_at b.capacity b.next_id buffer }

    go :
        (closed : Bool)
        → AllServing t (
            if closed then close_channel b.next_id made else record made {
              starting = record { channel = b.next_id; kind = kind } ∷ b.starting;
            })
    go true = close_channel-AllServing t b.next_id made (unchanged t b made refl refl (λ d. refl) s)
    go false = unchanged t b _ refl refl (λ d. refl) s

register-publishing : (r : Subscription) (b : Bus) → (register r b).publishing ≡ b.publishing
unfolding register
register-publishing r b = go b.is_closed
  where
    taken : Bus
    taken = record b { starting = without_channel b.starting r.channel }

    go :
        (closed : Bool)
        → (if closed
            then close_channel r.channel taken
            else record taken { subs = r ∷ b.subs }).publishing
          ≡ b.publishing
    go true = (close_channel-keeps r.channel taken).0
    go false = refl

end_subscribe-AllServing :
    (t : Types) (c : ℕ) (b b' : Bus) → end_subscribe c b ≡ some b' → AllServing t b'
unfolding end_subscribe register_found
end_subscribe-AllServing t c b b' h = elim (Bool-cases (no_publishing b.publishing)) [
  | inr busy ↦ absurd (none-ne-some _ (rw busy at h))
  | inl free ↦ elim (Option-cases (find_start b.starting c)) [
    | inl missing ↦ absurd (none-ne-some _ (rw (free, missing) at h))
    | inr (r, found) ↦
        subst (AllServing t) (some-injective _ _ (rw (free, found) at h))
          (idle t (register r b) (ap no_publishing (register-publishing r b) ∙ free))
  ]
]

unsubscribe-AllServing :
    (t : Types) (c : ℕ) (b b' : Bus) → unsubscribe c b ≡ some b' → AllServing t b'
unfolding unsubscribe
unsubscribe-AllServing t c b b' h =
    let (allowed, result) = if_some _ _ b' h in
    let free : no_publishing b.publishing ≡ true = ground (arith, allowed) in
    subst (AllServing t) result (
      idle t _ (
        ap no_publishing (close_channel-keeps c (record b { subs = without_channel b.subs c })).0
        ∙ free))

receive-AllServing :
    (t : Types) (c : ℕ) (b b' : Bus) → receive c b ≡ some b' → AllServing t b → AllServing t b'
unfolding receive
receive-AllServing t c b b' h s = go (b.buffers c) refl h
  where
    same :
        (e : Event) (es : List Event)
        → b.buffers c ≡ e ∷ es
        → (d : ℕ)
        → set_at b.received c (b.received c ++ (e ∷ [])) d ++ set_at b.buffers c es d ≡ sent b d
    same e es at d = elim (Bool-cases (c == d)) [
      | inl eq ↦
          let there : c ≡ d = ground (arith, eq) in
          rw eq (
            append_assoc (b.received c) (e ∷ []) es
            ∙ ap (λ bs. b.received c ++ bs) (sym at)
            ∙ ap (sent b) there)
      | inr not_so ↦ rw not_so refl
    ]

    go : (es : List Event) → b.buffers c ≡ es → take_first c es b ≡ some b' → AllServing t b'
    go [] at h = absurd (unfold take_first in none-ne-some _ h)
    go (e ∷ es) at h =
        subst (AllServing t) (some-injective _ _ (unfold take_first in h))
          (unchanged t b _ refl refl (same e es at) s)

lock_publish-AllServing :
    (t : Types) (i : ℕ) (b b' : Bus)
    → lock_publish t i b ≡ some b'
    → AllServing t b
    → AllServing t b'
unfolding lock_publish start_delivery nth
lock_publish-AllServing t i b b' h s = elim (Option-cases (nth b.arriving i)) [
  | inl missing ↦ absurd (none-ne-some _ (rw missing at h))
  | inr (e, at) ↦ subst (AllServing t) (some-injective _ _ (rw at at h)) (added e)
]
  where
    begun : Event → Bus
    begun e = record b {
      arriving = remove_at b.arriving i;
      publishing =
          record { event = e; served = []; waiting = matching t e.kind b.subs } ∷ b.publishing;
    }

    new_one :
        (e : Event)
        → IsServing t
            (begun e)
            (record { event = e; served = []; waiting = matching t e.kind b.subs })
    new_one e = record {
      served_sent = λ c h. unfold has in absurd (ground (arith, h));
      covers = λ c h. ground (arith, h);
    }

    each :
        (e : Event) (j : ℕ) (p : Publishing)
        → nth (begun e).publishing j ≡ some p
        → IsServing t (begun e) p
    each e zero p found = subst (IsServing t (begun e)) (some-injective _ _ found) (new_one e)
    each e (suc j) p found =
        still-IsServing t b (begun e) p refl (λ c h. h) (unfold AllServing in s j p found)

    added : (e : Event) → AllServing t (begun e)
    added e = unfold AllServing in each e

step-AllServing :
    (t : Types) (a : Action) (b b' : Bus) → AllServing t b → step t a b ≡ some b' → AllServing t b'
unfolding step send deliver_found cancel_publish end_publish begin_publish begin_close lock_close
    close_next
step-AllServing t (to_subscribe kind buffer) b b' s h =
    subst (AllServing t) (some-injective _ _ h) (begin_subscribe-AllServing t kind buffer b s)
step-AllServing t (to_register c) b b' s h = end_subscribe-AllServing t c b b' h
step-AllServing t (to_unsubscribe c) b b' s h = unsubscribe-AllServing t c b b' h
step-AllServing t (to_receive c) b b' s h = receive-AllServing t c b b' h s
step-AllServing t (to_publish e) b b' s h =
    let (is_open, result) = if_none _ _ b' h in
    subst (AllServing t) result (unchanged t b _ refl refl (λ c. refl) s)
step-AllServing t (to_lock i) b b' s h = lock_publish-AllServing t i b b' h s
step-AllServing t (to_cancel i) b b' s h =
    subst (AllServing t) (some-injective _ _ h) (removed t b i s)
step-AllServing t (to_finish i) b b' s h =
    let (served, result) = if_some _ _ b' h in subst (AllServing t) result (removed t b i s)
step-AllServing t (to_send i c taken) b b' s h = elim (Option-cases (nth b.publishing i)) [
  | inl missing ↦ absurd (none-ne-some _ (rw missing at h))
  | inr (p, at) ↦ elim (Bool-cases (has p.waiting c)) [
    | inl waits ↦ deliver-AllServing t i c taken p b b' at (rw (at, waits) at h) s
    | inr not_so ↦ absurd (none-ne-some _ (rw (at, not_so) at h))
  ]
]
step-AllServing t to_close b b' s h =
    let (is_open, result) = if_none _ _ b' h in
    subst (AllServing t) result (unchanged t b _ refl refl (λ c. refl) s)
step-AllServing t to_lock_close b b' s h =
    let (allowed, result) = if_some _ _ b' h in
    subst (AllServing t) result (idle t _ (ground (arith, allowed)))
step-AllServing t to_close_next b b' s h = go b.closing h
  where
    go : (cs : List ℕ) → close_first cs b ≡ some b' → AllServing t b'
    go [] h = absurd (unfold close_first in none-ne-some _ h)
    go (c ∷ cs) h = subst (AllServing t) (some-injective _ _ (unfold close_first in h)) (
        close_channel-AllServing t c (record b { closing = cs })
          (unchanged t b (record b { closing = cs }) refl refl (λ d. refl) s))

reachable-AllServing : {t : Types} {b : Bus} → Reaches t b → AllServing t b
reachable-AllServing starts = idle _ new_bus (unfold new_bus no_publishing in refl)
reachable-AllServing (goes_on r a h) = step-AllServing _ a _ _ (reachable-AllServing r) h

nothing_waits : (p : Publishing) (c : ℕ) → (length p.waiting == 0) ≡ true → has p.waiting c ≡ false
nothing_waits p c h = go p.waiting h
  where
    go : (cs : List ℕ) → (length cs == 0) ≡ true → has cs c ≡ false
    go [] h = unfold has in refl
    go (d ∷ cs) h = absurd (ground (arith, h))

-- When Publish returns without an error, in whatever interleaving, its event was sent to the channel
-- of every subscription that matches it: it is in the buffer there, or was received.
pub end_publish-delivered :
    {t : Types} {b b' : Bus} (i : ℕ) (p : Publishing)
    → Reaches t b
    → nth b.publishing i ≡ some p
    → end_publish i b ≡ some b'
    → (c : ℕ) → has (matching t p.event.kind b.subs) c ≡ true
    → holds (sent b' c) p.event ≡ true
unfolding end_publish all_served
end_publish-delivered {t} {b} {b'} i p r at h c matches =
    let (served, result) = if_some (length p.waiting == 0) _ b' (rw at at h) in
    let serving : IsServing t b p = unfold AllServing in reachable-AllServing r i p at in
    let covered = serving.covers c matches in
    ap (λ x. holds (sent x c) p.event) (sym result)
    ∙ serving.served_sent c (ground (arith, covered, nothing_waits p c served))
