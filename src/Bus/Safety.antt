-- ===== src/Bus/Safety.antt =====
-- No Publish sends on a closed channel, and none is blocked at a channel that is closed.
use mathlib.Core.Option.{some-injective}
use docbuilder.Common.{ℕ, ◌≡◌, ap, subst, true, false, some, [], ltb, arith}
use docbuilder.Bus.{Types, Bus, has, channels}
use docbuilder.Bus.Steps.{
  Action, to_subscribe, to_register, to_unsubscribe, to_receive, to_publish, to_lock, to_cancel,
  to_finish, to_send, to_close, to_lock_close, to_close_next, step, Reaches, starts, goes_on,
}
use docbuilder.Bus.Invariant.{
  IsSafe, new_bus-IsSafe, begin_subscribe-IsSafe, end_subscribe-IsSafe, unsubscribe-IsSafe,
  begin_close-IsSafe, lock_close-IsSafe, close_next-IsSafe,
}
use docbuilder.Bus.Invariant.Sends.{
  begin_publish-IsSafe, lock_publish-IsSafe, cancel_publish-IsSafe, end_publish-IsSafe,
  receive-IsSafe, send-IsSafe,
}

step-IsSafe : (t : Types) (a : Action) (b b' : Bus) → IsSafe b → step t a b ≡ some b' → IsSafe b'
unfolding step
step-IsSafe t (to_subscribe kind buffer) b b' s h =
    subst IsSafe (some-injective _ _ h) (begin_subscribe-IsSafe kind buffer b s)
step-IsSafe t (to_register c) b b' s h = end_subscribe-IsSafe c b b' s h
step-IsSafe t (to_unsubscribe c) b b' s h = unsubscribe-IsSafe c b b' s h
step-IsSafe t (to_receive c) b b' s h = receive-IsSafe c b b' s h
step-IsSafe t (to_publish e) b b' s h = begin_publish-IsSafe e b b' s h
step-IsSafe t (to_lock i) b b' s h = lock_publish-IsSafe t i b b' s h
step-IsSafe t (to_cancel i) b b' s h = cancel_publish-IsSafe i b b' s h
step-IsSafe t (to_finish i) b b' s h = end_publish-IsSafe i b b' s h
step-IsSafe t (to_send i c taken) b b' s h = send-IsSafe i c taken b b' s h
step-IsSafe t to_close b b' s h = begin_close-IsSafe b b' s h
step-IsSafe t to_lock_close b b' s h = lock_close-IsSafe b b' s h
step-IsSafe t to_close_next b b' s h = close_next-IsSafe b b' s h

pub reachable-IsSafe : {t : Types} {b : Bus} → Reaches t b → IsSafe b
reachable-IsSafe starts = new_bus-IsSafe
reachable-IsSafe (goes_on r a h) = step-IsSafe _ a _ _ (reachable-IsSafe r) h

-- However subscribing, unsubscribing, publishing and closing are interleaved: no event is ever sent
-- on a closed channel, and no channel is closed at which a Publish may be blocked.
pub reachable_quiet : {t : Types} {b : Bus} → Reaches t b → b.panicked ≡ false
reachable_quiet r = (reachable-IsSafe r).quiet

-- When Close has closed what it took out of the bus, and no Subscribe is under way, every channel
-- that was ever made is closed.
pub close-all_closed :
    {t : Types} {b : Bus}
    → Reaches t b
    → b.close_locked ≡ true
    → b.closing ≡ []
    → b.starting ≡ []
    → (c : ℕ) → ltb c b.next_id ≡ true
    → has b.closed c ≡ true
unfolding has channels
close-all_closed {b = b} r locked done idle c made =
    let s = reachable-IsSafe r in
    let none_closing : has b.closing c ≡ false = ap (λ t. has t c) done in
    let none_starting : has (channels b.starting) c ≡ false = ap (λ t. has (channels t) c) idle in
    ground (arith, s.known c, s.emptied c, locked, none_closing, none_starting, made)
