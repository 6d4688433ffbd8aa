-- ===== src/Dispatcher/Tests.antt =====
-- A dispatcher with two listeners, one for migrations alone.
use ume.Prelude.{◌≡◌, none, some, [], ◌∷◌, ◌++◌, arith, if◌then◌else◌}
use ume.Event.Samples.{migrated}
use ume.Types.Category
use ume.Dispatcher.{
  Dispatcher, EventFilter, subscribe_listener, subscribe_callback, unsubscribe, clear, dispatch,
  matches, on_event,
}
use ume.Dispatcher.Laws.{IsDispatcher, steps-IsDispatcher, dispatch-subscribe}

abbrev any_event : EventFilter
any_event = record { category = 0; type = 0; min_priority = 0 }

abbrev migrations : EventFilter
migrations = record { category = Category.tier_migration; type = 0; min_priority = 0 }

abbrev two_listeners : Dispatcher
two_listeners = record {
  subscribers =
      record { token = 1; listener = some 10; callback = none; filter = any_event }
      ∷ record { token = 2; listener = some 20; callback = none; filter = migrations }
      ∷ [];
  token_counter = 2;
}

two_listeners-IsDispatcher : IsDispatcher two_listeners
two_listeners-IsDispatcher = record {
  tokens = (omega arith, (omega arith, omega arith));
  small = omega arith;
}

steps-IsDispatcher_example :
    IsDispatcher (subscribe_listener (some 30) migrations two_listeners).1
    × IsDispatcher (subscribe_callback (some 30) migrations two_listeners).1
    × IsDispatcher (unsubscribe 1 two_listeners).1
    × IsDispatcher (clear two_listeners)
steps-IsDispatcher_example =
    steps-IsDispatcher two_listeners (some 30) migrations 1 two_listeners-IsDispatcher (omega arith)

dispatch-subscribe_example :
    dispatch migrated (subscribe_listener (some 30) migrations two_listeners).1
    ≡ dispatch migrated two_listeners
      ++ (if matches migrations migrated then on_event 30 migrated ∷ [] else [])
dispatch-subscribe_example = dispatch-subscribe 30 migrations two_listeners migrated
