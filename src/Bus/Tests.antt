-- ===== src/Bus/Tests.antt =====
-- Two subscribers, one event, and a Close, step by step; and the theorems about the bus at them.
use docbuilder.Common.{◌≡◌, refl, true, false, Option, none, some, [], ◌∷◌, ltb}
use docbuilder.Bus.{
  Types, Event, Publishing, Bus, new_bus, has, without, channels, without_channel, nth, remove_at,
  replace_at,
}
use docbuilder.Bus.Steps.{
  is_awaited, close_channel, find_start, no_publishing, register, register_found, begin_subscribe,
  end_subscribe, begin_publish, is_match, matching, start_delivery, deliver, deliver_found,
  close_first, all_served, lock_publish, send, end_publish, begin_close, lock_close, close_next,
  Action, to_subscribe, to_register, to_publish, to_lock, to_finish, to_send, to_close,
  to_lock_close, to_close_next, step, Reaches, starts, goes_on,
}
use docbuilder.Bus.Safety.{reachable_quiet, close-all_closed}
use docbuilder.Bus.Serving.{holds, sent}
use docbuilder.Bus.Delivery.{end_publish-delivered}

-- No interfaces
abbrev plain : Types
plain = record { is_interface = λ k. false; implements = λ a b. false }

or_stay : Option Bus → Bus → Bus
or_stay none b = b
or_stay (some b') b = b'

abbrev next : Action → Bus → Bus
unfolding or_stay
next a b = or_stay (step plain a b) b

abbrev asked : Event
asked = record { number = 7; kind = "BuildRequested" }

-- Two subscriptions that are registered, one of another kind
abbrev subscribed : Bus
subscribed = next (to_register 1) (
    next (to_subscribe "BuildNow" 1)
      (next (to_register 0) (next (to_subscribe "BuildRequested" 1) new_bus)))

-- The event is under way, and is sent.
abbrev publishing : Bus
publishing = next (to_send 0 0 false) (next (to_lock 0) (next (to_publish asked) subscribed))

abbrev ended : Bus
ended = next (to_finish 0) publishing

abbrev closed : Bus
closed = next to_close_next (next to_close_next (next to_lock_close (next to_close ended)))

published : Reaches plain publishing
unfolding step or_stay new_bus has channels without without_channel nth remove_at replace_at
    is_awaited close_channel find_start no_publishing register register_found begin_subscribe
    end_subscribe begin_publish is_match matching start_delivery deliver deliver_found lock_publish
    send
published =
    goes_on
      (goes_on
        (goes_on
          (goes_on
            (goes_on
              (goes_on (goes_on starts (to_subscribe "BuildRequested" 1) refl) (to_register 0) refl)
              (to_subscribe "BuildNow" 1) refl)
            (to_register 1) refl)
          (to_publish asked) refl)
        (to_lock 0) refl)
      (to_send 0 0 false) refl

all_closed : Reaches plain closed
unfolding step or_stay new_bus has channels without without_channel nth remove_at replace_at
    is_awaited close_channel find_start no_publishing register register_found begin_subscribe
    end_subscribe begin_publish is_match matching start_delivery deliver deliver_found lock_publish
    send all_served end_publish begin_close lock_close close_first close_next
all_closed =
    goes_on
      (goes_on
        (goes_on (goes_on (goes_on published (to_finish 0) refl) to_close refl) to_lock_close refl)
        to_close_next refl)
      to_close_next refl

abbrev served : Publishing
served = record { event = asked; served = 0 ∷ []; waiting = [] }

-- What is under way ends, having served the subscription that matches.
serves :
    (nth publishing.publishing 0 ≡ some served)
    × (end_publish 0 publishing ≡ some ended)
    × (has (matching plain "BuildRequested" publishing.subs) 0 ≡ true)
unfolding step or_stay new_bus has channels without without_channel nth remove_at replace_at
    is_awaited close_channel find_start no_publishing register register_found begin_subscribe
    end_subscribe begin_publish is_match matching start_delivery deliver deliver_found lock_publish
    send all_served end_publish
serves = (refl, refl, refl)

end_publish-delivered_example : holds (sent ended 0) asked ≡ true
end_publish-delivered_example =
    end_publish-delivered 0 served published serves.0 serves.1 0 serves.2

reachable_quiet_example : closed.panicked ≡ false
reachable_quiet_example = reachable_quiet all_closed

at_the_end :
    (closed.close_locked ≡ true)
    × (closed.closing ≡ [])
    × (closed.starting ≡ [])
    × (ltb 1 closed.next_id ≡ true)
unfolding step or_stay new_bus has channels without without_channel nth remove_at replace_at
    is_awaited close_channel find_start no_publishing register register_found begin_subscribe
    end_subscribe begin_publish is_match matching start_delivery deliver deliver_found lock_publish
    send all_served end_publish begin_close lock_close close_first close_next
at_the_end = (refl, refl, refl, refl)

close-all_closed_example : has closed.closed 1 ≡ true
close-all_closed_example =
    close-all_closed all_closed at_the_end.0 at_the_end.1 at_the_end.2 1 at_the_end.3
