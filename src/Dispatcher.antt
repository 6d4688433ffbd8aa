-- ===== src/Dispatcher.antt =====
-- `EventDispatcher` of core/src/event/event_dispatcher.cpp. A listener or a callback is a number
-- that stands for the object; a null listener and an empty callback are `none`. What `dispatch`
-- does is the list of the calls that it makes.
pub mod Laws
mod Tests
use ume.Prelude.{
  ℕ, ◌+◌, List, [], ◌∷◌, ◌++◌, Bool, true, false, not, ◌&&◌, ◌==◌, if◌then◌else◌, ltb, Option, none,
  some, filter, length, add64,
}
use ume.Status.{Result, ok, err, invalid_argument, not_found}
use ume.Event.{Event}
use ume.Types.Category
use ume.Types.EventType

pub record EventFilter : Type 0 where
  pub category : ℕ
  pub type : ℕ
  pub min_priority : ℕ

unfoldable pub matches : EventFilter → Event → Bool
matches f event =
    if not (f.category == Category.unknown) && not (event.header.category == f.category)
    then false
    else if not (f.type == EventType.unknown) && not (event.header.type == f.type)
    then false
    else if ltb event.header.priority f.min_priority
    then false
    else true

pub record Subscriber : Type 0 where
  pub token : ℕ
  pub listener : Option ℕ
  pub callback : Option ℕ
  pub filter : EventFilter

pub record Dispatcher : Type 0 where
  pub subscribers : List Subscriber
  pub token_counter : ℕ

abbrev pub empty_dispatcher : Dispatcher
empty_dispatcher = record { subscribers = []; token_counter = 0 }

-- A call that `dispatch` makes.
pub data Call : Type 0 where
  on_event : ℕ → Event → Call
  call_back : ℕ → Event → Call

abbrev pub add_subscriber : Option ℕ → Option ℕ → EventFilter → Dispatcher → ℕ × Dispatcher
add_subscriber listener callback f d =
    let token = add64 d.token_counter 1 in
    (
      token,
      record {
        subscribers =
            d.subscribers
            ++ record { token = token; listener = listener; callback = callback; filter = f } ∷ [];
        token_counter = token;
      },
    )

-- The two overloads of `subscribe`. The token 0 is `SubscriptionToken::kInvalid`.
unfoldable pub subscribe_listener : Option ℕ → EventFilter → Dispatcher → ℕ × Dispatcher
subscribe_listener none f d = (0, d)
subscribe_listener (some l) f d = add_subscriber (some l) none f d

unfoldable pub subscribe_callback : Option ℕ → EventFilter → Dispatcher → ℕ × Dispatcher
subscribe_callback none f d = (0, d)
subscribe_callback (some c) f d = add_subscriber none (some c) f d

abbrev pub without : ℕ → List Subscriber → List Subscriber
without token = filter (λ s. not (s.token == token))

-- `remove_if` returns the end exactly if it keeps every subscriber.
unfoldable pub unsubscribe : ℕ → Dispatcher → Result (Unit {0}) × Dispatcher
unsubscribe token d =
    if token == 0
    then (err invalid_argument, d)
    else if length (without token d.subscribers) == length d.subscribers
    then (err not_found, d)
    else (ok tt, record d { subscribers = without token d.subscribers })

abbrev pub invoke : Option ℕ → Option ℕ → Event → List Call
invoke (some l) callback event = on_event l event ∷ []
invoke none (some c) event = call_back c event ∷ []
invoke none none event = []

unfoldable pub notify : Subscriber → Event → List Call
notify s event = if matches s.filter event then invoke s.listener s.callback event else []

unfoldable pub notify_all : List Subscriber → Event → List Call
unfolding notify
notify_all [] event = []
notify_all (s ∷ ss) event = notify s event ++ notify_all ss event

unfoldable pub dispatch : Event → Dispatcher → List Call
unfolding notify_all
dispatch event d = notify_all d.subscribers event

unfoldable pub subscriber_count : Dispatcher → ℕ
subscriber_count d = length d.subscribers

unfoldable pub clear : Dispatcher → Dispatcher
clear d = record d { subscribers = [] }
