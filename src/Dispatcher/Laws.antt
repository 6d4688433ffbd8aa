-- ===== src/Dispatcher/Laws.antt =====
-- Tokens, and who is called.
use ume.Prelude.{
  ℕ, ◌+◌, ◌^◌, ◌≤◌, ◌<◌, ◌≡◌, ◌≢◌, refl, sym, ap, ◌∙◌, List, [], ◌∷◌, ◌++◌, not, ◌==◌,
  if◌then◌else◌, Option, none, some, length, length-append, length-filter-le, filter-append,
  append_assoc, append-nil, add64, arith,
}
use ume.Status.{ok, err, not_found}
use ume.Event.{Event}
use ume.Dispatcher.{
  EventFilter, Subscriber, Dispatcher, Call, matches, add_subscriber, subscribe_listener,
  subscribe_callback, without, unsubscribe, notify, notify_all, dispatch, clear,
}

-- Tokens rise along the list, from above `low` up to `high`.
abbrev pub Rising : ℕ → ℕ → List Subscriber → Type 0
Rising low high [] = low ≤ high
Rising low high (s ∷ ss) = (low < s.token) × Rising s.token high ss

-- The tokens in use are valid, distinct and behind the counter, which has not wrapped.
pub record IsDispatcher (d : Dispatcher) : Type 0 where
  pub tokens : Rising 0 d.token_counter d.subscribers
  pub small : d.token_counter < 2 ^ 64

Rising-weaken :
    (low low' high : ℕ) (ss : List Subscriber)
    → low' ≤ low
    → Rising low high ss
    → Rising low' high ss
Rising-weaken low low' high [] h r = omega arith
Rising-weaken low low' high (s ∷ ss) h (p, r) = (omega arith, r)

Rising-append :
    (low high t : ℕ) (ss : List Subscriber) (s : Subscriber)
    → Rising low high ss
    → s.token ≡ t
    → high < t
    → Rising low t (ss ++ s ∷ [])
Rising-append low high t [] s r e h = omega arith
Rising-append low high t (u ∷ ss) s (p, r) e h = (p, Rising-append u.token high t ss s r e h)

Rising-without :
    (token low high : ℕ) (ss : List Subscriber)
    → Rising low high ss
    → Rising low high (without token ss)
Rising-without token low high [] r = r
Rising-without token low high (s ∷ ss) (p, r) = ground (
  arith,
  Rising-without token s.token high ss r,
  Rising-weaken s.token low high (without token ss) (omega arith),
)

add_subscriber-IsDispatcher :
    (l c : Option ℕ) (f : EventFilter) (d : Dispatcher)
    → IsDispatcher d
    → d.token_counter + 1 < 2 ^ 64
    → IsDispatcher (add_subscriber l c f d).1
add_subscriber-IsDispatcher l c f d v h = record {
  tokens =
      Rising-append 0 d.token_counter (add64 d.token_counter 1) d.subscribers _ v.tokens refl
        (omega arith);
  small = omega arith;
}

unsubscribe-IsDispatcher :
    (token : ℕ) (d : Dispatcher) → IsDispatcher d → IsDispatcher (unsubscribe token d).1
unfolding unsubscribe
unsubscribe-IsDispatcher token d v =
    ground (arith, Rising-without token 0 d.token_counter d.subscribers v.tokens)

-- Subscribing, unsubscribing and clearing keep the tokens valid, as long as the counter does not
-- wrap.
pub steps-IsDispatcher :
    (d : Dispatcher) (l : Option ℕ) (f : EventFilter) (token : ℕ)
    → IsDispatcher d
    → d.token_counter + 1 < 2 ^ 64
    → IsDispatcher (subscribe_listener l f d).1
      × IsDispatcher (subscribe_callback l f d).1
      × IsDispatcher (unsubscribe token d).1
      × IsDispatcher (clear d)
unfolding subscribe_listener subscribe_callback clear
steps-IsDispatcher d none f token v h =
    (v, v, unsubscribe-IsDispatcher token d v, record { tokens = omega arith; small = v.small })
steps-IsDispatcher d (some l) f token v h = (
  add_subscriber-IsDispatcher (some l) none f d v h,
  add_subscriber-IsDispatcher none (some l) f d v h,
  unsubscribe-IsDispatcher token d v,
  record { tokens = omega arith; small = v.small },
)

without_above :
    (token low high : ℕ) (ss : List Subscriber)
    → Rising low high ss
    → high < token
    → without token ss ≡ ss
without_above token low high [] r h = refl
without_above token low high (s ∷ ss) (p, r) h =
    ground (arith, without_above token s.token high ss r h, Rising-le s.token high ss r)
  where
    Rising-le : (low high : ℕ) (ss : List Subscriber) → Rising low high ss → low ≤ high
    Rising-le low high [] r = r
    Rising-le low high (s ∷ ss) (p, r) = omega (arith, Rising-le s.token high ss r)

without_below :
    (token low high : ℕ) (ss : List Subscriber)
    → Rising low high ss
    → token ≤ low
    → without token ss ≡ ss
without_below token low high [] r h = refl
without_below token low high (s ∷ ss) (p, r) h =
    ground (arith, without_below token s.token high ss r (omega arith))

without_all :
    (token : ℕ) (ss : List Subscriber)
    → length (without token ss) ≡ length ss
    → without token ss ≡ ss
without_all token [] e = refl
without_all token (s ∷ ss) e =
    ground (arith, without_all token ss, length-filter-le (λ u. not (u.token == token)) ss)

notify_all-snoc :
    (event : Event) (ss : List Subscriber) (s : Subscriber)
    → notify_all (ss ++ s ∷ []) event ≡ notify_all ss event ++ notify s event
unfolding notify_all
notify_all-snoc event [] s = append-nil (notify s event)
notify_all-snoc event (u ∷ ss) s =
    ap (λ t. notify u event ++ t) (notify_all-snoc event ss s)
    ∙ sym (append_assoc (notify u event) (notify_all ss event) (notify s event))

-- A listener that subscribes is called last, exactly for the events that its filter matches, and
-- the calls to the others stay as they were.
pub dispatch-subscribe :
    (l : ℕ) (f : EventFilter) (d : Dispatcher) (event : Event)
    → dispatch event (subscribe_listener (some l) f d).1
      ≡ dispatch event d ++ (if matches f event then Call.on_event l event ∷ [] else [])
unfolding dispatch subscribe_listener notify
dispatch-subscribe l f d event =
    let s : Subscriber = record {
      token = add64 d.token_counter 1;
      listener = some l;
      callback = none;
      filter = f;
    } in
    notify_all-snoc event d.subscribers s

without-snoc :
    (high t : ℕ) (ss : List Subscriber) (s : Subscriber)
    → Rising 0 high ss
    → high < t
    → s.token ≡ t
    → without t (ss ++ s ∷ []) ≡ ss
without-snoc high t ss s r h e =
    filter-append (λ u. not (u.token == t)) ss (s ∷ [])
    ∙ (ap (λ us. us ++ without t (s ∷ [])) (without_above t 0 high ss r h)
        ∙ (ap (λ us. ss ++ us) gone ∙ append-nil ss))
  where
    gone : without t (s ∷ []) ≡ []
    gone = ground arith

-- Unsubscribing the token that `subscribe` gave succeeds and restores the subscribers.
pub unsubscribe-subscribe :
    (l : ℕ) (f : EventFilter) (d : Dispatcher)
    → IsDispatcher d
    → d.token_counter + 1 < 2 ^ 64
    → let (token, d') = subscribe_listener (some l) f d in
      let (result, d'') = unsubscribe token d' in
      (result ≡ ok tt) × (d''.subscribers ≡ d.subscribers)
unfolding subscribe_listener unsubscribe
unsubscribe-subscribe l f d v h =
    let t = add64 d.token_counter 1 in
    let s : Subscriber = record { token = t; listener = some l; callback = none; filter = f } in
    let kept = without-snoc d.token_counter t d.subscribers s v.tokens (omega arith) refl in
    ground (arith, kept, ap length kept, length-append {0} d.subscribers (s ∷ []))

-- Whatever `unsubscribe` returns, afterwards exactly the subscribers with another token are called,
-- in the order in which they were.
pub dispatch-unsubscribe :
    (token : ℕ) (d : Dispatcher) (event : Event)
    → IsDispatcher d
    → dispatch event (unsubscribe token d).1 ≡ notify_all (without token d.subscribers) event
unfolding dispatch unsubscribe
dispatch-unsubscribe token d event v = ground (
  arith,
  without_all token d.subscribers,
  without_below 0 0 d.token_counter d.subscribers v.tokens (omega arith),
)

without_twice :
    (token : ℕ) (ss : List Subscriber) → without token (without token ss) ≡ without token ss
without_twice token [] = refl
without_twice token (s ∷ ss) = ground (arith, without_twice token ss)

-- A token is good for one `unsubscribe`: the second is refused, and changes nothing.
pub unsubscribe_twice :
    (token : ℕ) (d : Dispatcher)
    → token ≢ 0
    → let d' = (unsubscribe token d).1 in unsubscribe token d' ≡ (err not_found, d')
unfolding unsubscribe
unsubscribe_twice token d h = ground (arith, ap length (without_twice token d.subscribers))
