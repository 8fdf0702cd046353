-- ===== src/Bus/Steps.antt =====
-- internal/daemon/events/bus.go: the operations of the bus, cut at its locks and sends, and their
-- interleavings.
use Prim.Native.String.{String}
use docbuilder.Common.{
  ℕ, suc, ◌+◌, ◌≡◌, Bool, true, false, not, ◌&&◌, ◌||◌, Option, none, some, List, [], ◌∷◌, ◌++◌,
  if◌then◌else◌, ◌==◌, ltb, length,
}
use docbuilder.Common.Text.{str_eq}
use docbuilder.Bus.{
  Types, Event, Subscription, Publishing, Bus, new_bus, has, without, channels, without_channel,
  set_at, nth, remove_at, replace_at,
}

unfoldable pub is_awaited : List Publishing → ℕ → Bool
is_awaited [] c = false
is_awaited (p ∷ ps) c = has p.waiting c || is_awaited ps c

-- closeChannel: once for each channel
unfoldable pub close_channel : ℕ → Bus → Bus
close_channel c b =
    if has b.closed c
    then b
    else record b { closed = c ∷ b.closed; panicked = b.panicked || is_awaited b.publishing c }

-- Subscribe up to the lock: a new channel, which is closed at once if the bus is.
unfoldable pub begin_subscribe : String → ℕ → Bus → Bus
begin_subscribe kind buffer b =
    let c = b.next_id in
    let made : Bus = record b { next_id = suc c; capacity = set_at b.capacity c buffer } in
    if b.is_closed
    then close_channel c made
    else record made { starting = record { channel = c; kind = kind } ∷ b.starting }

-- The kind that a subscription which is starting asked for
unfoldable pub find_start : List Subscription → ℕ → Option Subscription
find_start [] c = none
find_start (s ∷ ss) c = let rest = find_start ss c in if s.channel == c then some s else rest

unfoldable pub no_publishing : List Publishing → Bool
no_publishing [] = true
no_publishing (p ∷ ps) = false

-- The write lock is free while no Publish holds the read lock; under it, the rest of Subscribe.
unfoldable pub register : Subscription → Bus → Bus
register s b =
    let taken : Bus = record b { starting = without_channel b.starting s.channel } in
    if b.is_closed then close_channel s.channel taken else record taken { subs = s ∷ b.subs }

unfoldable pub register_found : Option Subscription → Bus → Option Bus
register_found none b = none
register_found (some s) b = some (register s b)

unfoldable pub end_subscribe : ℕ → Bus → Option Bus
unfolding find_start no_publishing register register_found
end_subscribe c b =
    let registered = register_found (find_start b.starting c) b in
    if no_publishing b.publishing then registered else none

-- unsubscribe, which Subscribe has returned
unfoldable pub unsubscribe : ℕ → Bus → Option Bus
unfolding no_publishing
unsubscribe c b =
    if no_publishing b.publishing && ltb c b.next_id && not (has (channels b.starting) c)
    then some (close_channel c (record b { subs = without_channel b.subs c }))
    else none

-- The test of Publish for one subscription
unfoldable pub is_match : Types → String → String → Bool
is_match t event_kind sub_kind =
    str_eq sub_kind event_kind || t.is_interface sub_kind && t.implements event_kind sub_kind

unfoldable pub matching : Types → String → List Subscription → List ℕ
matching t kind [] = []
matching t kind (s ∷ ss) =
    let rest = matching t kind ss in if is_match t kind s.kind then s.channel ∷ rest else rest

-- Publish up to the lock; on a closed bus it returns an error.
unfoldable pub begin_publish : Event → Bus → Option Bus
begin_publish e b = if b.is_closed then none else some (record b { arriving = e ∷ b.arriving })

unfoldable pub start_delivery : Types → ℕ → Option Event → Bus → Option Bus
start_delivery t i none b = none
start_delivery t i (some e) b = some (record b {
  arriving = remove_at b.arriving i;
  publishing = record { event = e; served = []; waiting = matching t e.kind b.subs } ∷ b.publishing;
})

-- Publish takes the read lock, and meets the subscriptions that are there.
unfoldable pub lock_publish : Types → ℕ → Bus → Option Bus
unfolding start_delivery
lock_publish t i b = start_delivery t i (nth b.arriving i) b

abbrev pub serve : ℕ → Publishing → Publishing
serve c p = record p { served = c ∷ p.served; waiting = without p.waiting c }

-- ch <- v: into the buffer, or to a receiver that waits at an empty buffer (`taken`); blocked else.
unfoldable pub deliver : ℕ → ℕ → Bool → Publishing → Bus → Option Bus
deliver i c taken p b =
    let moved : Bus = record b { publishing = replace_at b.publishing i (serve c p) } in
    let buffered : Bus = record moved {
      buffers = set_at b.buffers c (b.buffers c ++ (p.event ∷ []));
    } in
    let handed : Bus = record moved {
      received = set_at b.received c (b.received c ++ (p.event ∷ []));
    } in
    if has b.closed c
    then some (record b { panicked = true })
    else if taken
    then (if length (b.buffers c) == 0 then some handed else none)
    else if ltb (length (b.buffers c)) (b.capacity c)
    then some buffered
    else none

unfoldable pub deliver_found : ℕ → ℕ → Bool → Option Publishing → Bus → Option Bus
unfolding deliver
deliver_found i c taken none b = none
deliver_found i c taken (some p) b = if has p.waiting c then deliver i c taken p b else none

-- send, by the Publish at place i to the channel c, which it has still to serve: the order of the
-- loops over the maps is not defined.
unfoldable pub send : ℕ → ℕ → Bool → Bus → Option Bus
unfolding deliver_found
send i c taken b = deliver_found i c taken (nth b.publishing i) b

-- The context of a Publish ends: it returns an error, wherever it is.
unfoldable pub cancel_publish : ℕ → Bus → Option Bus
cancel_publish i b = some (record b { publishing = remove_at b.publishing i })

unfoldable pub all_served : Option Publishing → Bool
all_served none = false
all_served (some p) = length p.waiting == 0

-- Publish returns nil, its loops at an end.
unfoldable pub end_publish : ℕ → Bus → Option Bus
unfolding all_served
end_publish i b =
    if all_served (nth b.publishing i)
    then some (record b { publishing = remove_at b.publishing i })
    else none

unfoldable pub take_first : ℕ → List Event → Bus → Option Bus
take_first c [] b = none
take_first c (e ∷ es) b = some (record b {
  buffers = set_at b.buffers c es;
  received = set_at b.received c (b.received c ++ (e ∷ []));
})

-- A subscriber receives from its channel.
unfoldable pub receive : ℕ → Bus → Option Bus
unfolding take_first
receive c b = take_first c (b.buffers c) b

-- Close runs once: isClosed is set before the lock, ...
unfoldable pub begin_close : Bus → Option Bus
begin_close b = if b.is_closed then none else some (record b { is_closed = true })

-- ... the subscriptions are taken out under it, ...
unfoldable pub lock_close : Bus → Option Bus
unfolding no_publishing
lock_close b =
    if b.is_closed && not b.close_locked && no_publishing b.publishing
    then some (record b { close_locked = true; subs = []; closing = channels b.subs })
    else none

unfoldable pub close_first : List ℕ → Bus → Option Bus
close_first [] b = none
close_first (c ∷ cs) b = some (close_channel c (record b { closing = cs }))

-- ... and their channels are closed after it is released.
unfoldable pub close_next : Bus → Option Bus
unfolding close_first
close_next b = close_first b.closing b

-- SubscriberCount, of the subscriptions of one kind
pub subscriber_count : String → List Subscription → ℕ
subscriber_count kind [] = 0
subscriber_count kind (s ∷ ss) = (if str_eq s.kind kind then 1 else 0) + subscriber_count kind ss

-- The steps of the goroutines that use a bus
pub data Action : Type 0 where
  to_subscribe : String → ℕ → Action
  to_register to_unsubscribe to_receive : ℕ → Action
  to_publish : Event → Action
  to_lock to_cancel to_finish : ℕ → Action
  to_send : ℕ → ℕ → Bool → Action
  to_close to_lock_close to_close_next : Action

-- A step, `none` where it is not possible or has to wait.
unfoldable pub step : Types → Action → Bus → Option Bus
step t (to_subscribe kind buffer) b = some (begin_subscribe kind buffer b)
step t (to_register c) b = end_subscribe c b
step t (to_unsubscribe c) b = unsubscribe c b
step t (to_receive c) b = receive c b
step t (to_publish e) b = begin_publish e b
step t (to_lock i) b = lock_publish t i b
step t (to_cancel i) b = cancel_publish i b
step t (to_finish i) b = end_publish i b
step t (to_send i c taken) b = send i c taken b
step t to_close b = begin_close b
step t to_lock_close b = lock_close b
step t to_close_next b = close_next b

-- The buses that some interleaving of steps leads to
pub data Reaches (t : Types) : Bus → Type 0 where
  starts : Reaches t new_bus
  goes_on : {b b' : Bus} → Reaches t b → (a : Action) → step t a b ≡ some b' → Reaches t b'
