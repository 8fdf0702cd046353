-- ===== src/Bus/Invariant.antt =====
-- What holds of a bus in every state, kept by subscribing and by closing.
pub mod Sends
use Prim.Native.String.{String}
use mathlib.Core.Option.{some-injective, none-ne-some}
use docbuilder.Common.{
  ℕ, zero, suc, ◌+◌, ◌≡◌, ◌<◌, refl, sym, ap, ◌∙◌, subst, Bool, true, false, not, ◌&&◌, ◌||◌,
  Option, none, some, List, [], ◌∷◌, ◌++◌, if◌then◌else◌, ◌==◌, ltb, length, arith, Bool-cases,
  Option-cases, inl, inr, ◌⊎◌,
}
use docbuilder.Bus.{
  Types, Event, Subscription, Publishing, Bus, new_bus, has, without, channels, without_channel,
  set_at, nth, remove_at, replace_at,
}
use docbuilder.Bus.Steps.{
  is_awaited, close_channel, find_start, no_publishing, register, register_found, begin_subscribe,
  end_subscribe, unsubscribe, begin_publish, lock_publish, serve, matching, start_delivery,
  take_first, deliver, deliver_found, close_first, all_served, send, cancel_publish, end_publish,
  receive, begin_close, lock_close, close_next, Action, to_subscribe, to_register, to_unsubscribe,
  to_receive, to_publish, to_lock, to_cancel, to_finish, to_send, to_close, to_lock_close,
  to_close_next, step, Reaches, starts, goes_on,
}
use docbuilder.Bus.Publishers.{
  has-without_channel, has-without, nth-remove_at, nth-replace_at, awaited_by, if_some, if_none,
  not_awaited, find_start-has, has-matching, awaited-remove_at, awaited-serve, awaited-nth,
}

pub record IsSafe (b : Bus) : Type 0 where
  pub quiet : b.panicked ≡ false
  -- Subscribed channels are open, and a Publish waits at subscribed channels only.
  pub is_open : (c : ℕ) → has (channels b.subs) c ≡ true → has b.closed c ≡ false
  pub awaited : (c : ℕ) → is_awaited b.publishing c ≡ true → has (channels b.subs) c ≡ true
  -- Once Close has had the lock, there is no subscription.
  pub emptied : (c : ℕ) → b.close_locked ≡ true → has (channels b.subs) c ≡ false
  pub locked : b.close_locked ≡ true → b.is_closed ≡ true
  pub closing_locked : (c : ℕ) → has b.closing c ≡ true → b.close_locked ≡ true
  -- A channel that is to be subscribed is open, and is nowhere else.
  pub starting_open : (c : ℕ) → has (channels b.starting) c ≡ true → has b.closed c ≡ false
  pub starting_apart :
      (c : ℕ)
      → has (channels b.starting) c ≡ true
      → has (channels b.subs) c || has b.closing c ≡ false
  -- Every channel made so far is in some state, and no other is.
  pub known :
      (c : ℕ)
      → has b.closed c
          || (has (channels b.subs) c || (has (channels b.starting) c || has b.closing c))
        ≡ ltb c b.next_id

pub new_bus-IsSafe : IsSafe new_bus
unfolding new_bus has channels is_awaited
new_bus-IsSafe = record {
  quiet = refl;
  is_open = λ c h. refl;
  awaited = λ c h. h;
  emptied = λ c h. refl;
  locked = λ h. h;
  closing_locked = λ c h. h;
  starting_open = λ c h. refl;
  starting_apart = λ c h. refl;
  known = λ c. ground arith;
}

pub begin_subscribe-IsSafe :
    (kind : String) (buffer : ℕ) (b : Bus) → IsSafe b → IsSafe (begin_subscribe kind buffer b)
unfolding begin_subscribe close_channel has channels
begin_subscribe-IsSafe kind buffer b s = record {
  quiet = ground (arith, s.quiet, s.known b.next_id, s.awaited b.next_id);
  is_open = λ c h. ground (arith, h, s.is_open c, s.known c);
  awaited = λ c h. ground (arith, h, s.awaited c);
  emptied = λ c h. ground (arith, h, s.emptied c);
  locked = λ h. ground (arith, h, s.locked);
  closing_locked = λ c h. ground (arith, h, s.closing_locked c);
  starting_open = λ c h. ground (arith, h, s.starting_open c, s.known c);
  starting_apart = λ c h. ground (arith, h, s.starting_apart c, s.known c);
  known = λ c. ground (arith, s.known c);
}

pub register-IsSafe :
    (r : Subscription) (b : Bus)
    → IsSafe b
    → no_publishing b.publishing ≡ true
    → has (channels b.starting) r.channel ≡ true
    → IsSafe (register r b)
unfolding register close_channel has channels
register-IsSafe r b s free started =
    let none_waits = λ (c : ℕ). not_awaited b.publishing c free in
    let others = λ (c : ℕ). has-without_channel b.starting r.channel c in
    record {
      quiet = ground (arith, s.quiet, none_waits r.channel);
      is_open = λ c h.
          ground
            (arith, h, s.is_open c, started, s.starting_open r.channel, s.starting_apart r.channel);
      awaited = λ c h. ground (arith, h, none_waits c);
      emptied = λ c h. ground (arith, h, s.emptied c, s.locked);
      locked = λ h. ground (arith, h, s.locked);
      closing_locked = λ c h. ground (arith, h, s.closing_locked c);
      starting_open = λ c h. ground (arith, h, others c, s.starting_open c);
      starting_apart = λ c h. ground (arith, h, others c, s.starting_apart c);
      known = λ c. ground (arith, others c, s.known c, started);
    }

pub end_subscribe-IsSafe : (c : ℕ) (b b' : Bus) → IsSafe b → end_subscribe c b ≡ some b' → IsSafe b'
unfolding end_subscribe register_found
end_subscribe-IsSafe c b b' s h = elim (Bool-cases (no_publishing b.publishing)) [
  | inr busy ↦ absurd (none-ne-some _ (rw busy at h))
  | inl free ↦ elim (Option-cases (find_start b.starting c)) [
    | inl missing ↦ absurd (none-ne-some _ (rw (free, missing) at h))
    | inr (r, found) ↦
        let (same, started) = find_start-has b.starting c r found in
        let result : register r b ≡ b' = some-injective _ _ (rw (free, found) at h) in
        subst IsSafe result
          (register-IsSafe r b s free (ap (has (channels b.starting)) same ∙ started))
  ]
]

pub removed-IsSafe :
    (c : ℕ) (b : Bus)
    → IsSafe b
    → no_publishing b.publishing ≡ true
    → has (channels b.starting) c ≡ false
    → ltb c b.next_id ≡ true
    → IsSafe (close_channel c (record b { subs = without_channel b.subs c }))
unfolding close_channel has
removed-IsSafe c b s free apart made =
    let none_waits = λ (d : ℕ). not_awaited b.publishing d free in
    let others = λ (d : ℕ). has-without_channel b.subs c d in
    record {
      quiet = ground (arith, s.quiet, none_waits c);
      is_open = λ d h. ground (arith, h, others d, s.is_open d);
      awaited = λ d h. ground (arith, h, none_waits d);
      emptied = λ d h. ground (arith, h, others d, s.emptied d);
      locked = λ h. ground (arith, h, s.locked);
      closing_locked = λ d h. ground (arith, h, s.closing_locked d);
      starting_open = λ d h. ground (arith, h, apart, s.starting_open d);
      starting_apart = λ d h. ground (arith, h, others d, s.starting_apart d);
      known = λ d. ground (arith, others d, s.known d, made);
    }

pub unsubscribe-IsSafe : (c : ℕ) (b b' : Bus) → IsSafe b → unsubscribe c b ≡ some b' → IsSafe b'
unfolding unsubscribe
unsubscribe-IsSafe c b b' s h =
    let (allowed, result) = if_some _ _ b' h in
    subst IsSafe result (
      removed-IsSafe c b s (ground (arith, allowed)) (ground (arith, allowed))
        (ground (arith, allowed)))

pub begin_close-IsSafe : (b b' : Bus) → IsSafe b → begin_close b ≡ some b' → IsSafe b'
unfolding begin_close
begin_close-IsSafe b b' s h =
    let (still_open, result) = if_none _ _ b' h in
    subst IsSafe result (record {
      quiet = s.quiet;
      is_open = s.is_open;
      awaited = s.awaited;
      emptied = s.emptied;
      locked = λ k. refl;
      closing_locked = s.closing_locked;
      starting_open = s.starting_open;
      starting_apart = s.starting_apart;
      known = s.known;
    })

pub emptied-IsSafe :
    (b : Bus)
    → IsSafe b
    → b.is_closed ≡ true
    → b.close_locked ≡ false
    → no_publishing b.publishing ≡ true
    → IsSafe (record b { close_locked = true; subs = []; closing = channels b.subs })
unfolding has channels
emptied-IsSafe b s closed unlocked free = record {
  quiet = s.quiet;
  is_open = λ c h. absurd (ground (arith, h));
  awaited = λ c h. ground (arith, h, not_awaited b.publishing c free);
  emptied = λ c h. refl;
  locked = λ h. closed;
  closing_locked = λ c h. refl;
  starting_open = s.starting_open;
  starting_apart = λ c h. ground (arith, s.starting_apart c h);
  known = λ c. ground (arith, s.known c, s.closing_locked c, unlocked);
}

pub lock_close-IsSafe : (b b' : Bus) → IsSafe b → lock_close b ≡ some b' → IsSafe b'
unfolding lock_close
lock_close-IsSafe b b' s h =
    let (allowed, result) = if_some _ _ b' h in
    subst IsSafe result (
      emptied-IsSafe b s (ground (arith, allowed)) (ground (arith, allowed))
        (ground (arith, allowed)))

pub closed-IsSafe :
    (b : Bus) (c : ℕ) (cs : List ℕ)
    → IsSafe b
    → b.closing ≡ c ∷ cs
    → IsSafe (close_channel c (record b { closing = cs }))
unfolding close_channel has
closed-IsSafe b c cs s at =
    let in_closing = λ (d : ℕ). ap (λ t. has t d) at in
    record {
      quiet = ground (arith, s.quiet, s.awaited c, s.emptied c, s.closing_locked c, in_closing c);
      is_open =
          λ d h. ground (arith, h, s.is_open d, s.emptied d, s.closing_locked c, in_closing c);
      awaited = λ d h. ground (arith, h, s.awaited d);
      emptied = λ d h. ground (arith, h, s.emptied d);
      locked = λ h. ground (arith, h, s.locked);
      closing_locked = λ d h. ground (arith, h, s.closing_locked d, in_closing d);
      starting_open = λ d h. ground (arith, h, s.starting_open d, s.starting_apart d, in_closing d);
      starting_apart = λ d h. ground (arith, h, s.starting_apart d, in_closing d);
      known = λ d. ground (arith, s.known d, in_closing d);
    }

pub close_next-IsSafe : (b b' : Bus) → IsSafe b → close_next b ≡ some b' → IsSafe b'
unfolding close_next
close_next-IsSafe b b' s h = go b.closing refl h
  where
    go : (cs : List ℕ) → b.closing ≡ cs → close_first cs b ≡ some b' → IsSafe b'
    go [] at h = absurd (unfold close_first in none-ne-some _ h)
    go (c ∷ cs) at h =
        subst IsSafe (some-injective _ _ (unfold close_first in h)) (closed-IsSafe b c cs s at)
