-- ===== src/Analyzer/Live.antt =====
-- The table of active allocations against the history of each object.
use ume.Prelude.{
  ℕ, ◌≡◌, refl, sym, ap, subst, ◌∙◌, inl, inr, Bool, true, false, Option, none, some, List, [], ◌∷◌,
  arith, ◌==◌, if◌then◌else◌, Bool-cases, length, lookup, insert, IsMap, lookup-insert,
  lookup-erase, insert-IsMap, erase-IsMap,
}
use ume.Event.{Event}
use ume.Types.EventType
use ume.Types.Tier
use ume.Statistics.{StatisticsCollector}
use ume.Analyzer.{
  ActiveAllocation, EventAnalyzer, allocation_of, handle_object_created, destroy,
  handle_object_destroyed, migrate, handle_migration_completed, count_event, handle_event,
  process_event, process_all, is_some, is_allocated,
}

-- Whether an object is alive after an event, given whether it was alive before.
abbrev pub alive_after : ℕ → Event → Bool → Bool
alive_after object_id event before =
    if event.header.object_id == object_id
    then if event.header.type == EventType.object_created
      then true
      else if event.header.type == EventType.object_destroyed
      then false
      else before
    else before

-- An object is alive if the last event about it that is a creation or a destruction is a creation.
abbrev pub alive : ℕ → List Event → Bool → Bool
alive object_id [] before = before
alive object_id (e ∷ es) before = alive object_id es (alive_after object_id e before)

-- The keys are distinct, an entry's key is its object, the count is the size.
pub record IsTable (a : EventAnalyzer) : Type 0 where
  pub keys : IsMap a.active_map
  pub count : a.context.active_allocations_count ≡ length a.active_map

migrate-length :
    (k : ℕ) (v : ActiveAllocation) (m : List (ℕ × ActiveAllocation)) (w : ActiveAllocation)
    → lookup k m ≡ some w
    → length (insert k v m) ≡ length m
migrate-length k v [] w e = absurd (ground arith)
migrate-length k v ((j, u) ∷ m) w e = ground (arith, migrate-length k v m w)

pub count_event-map : (e : Event) (a : EventAnalyzer) → (count_event e a).active_map ≡ a.active_map
unfolding count_event
count_event-map e a = ground arith

count_event-count :
    (e : Event) (a : EventAnalyzer)
    → (count_event e a).context.active_allocations_count ≡ a.context.active_allocations_count
unfolding count_event
count_event-count e a = ground arith

count_event-IsTable : (e : Event) (a : EventAnalyzer) → IsTable a → IsTable (count_event e a)
count_event-IsTable e a t = record {
  keys = subst IsMap (sym (count_event-map e a)) t.keys;
  count = count_event-count e a ∙ (t.count ∙ ap length (sym (count_event-map e a)));
}

destroy-IsTable :
    (e : Event) (a : EventAnalyzer) (c : Option StatisticsCollector) (o : Option ActiveAllocation)
    → IsTable a
    → IsTable (destroy e a c o).0
unfolding destroy
destroy-IsTable e a c none t = record { keys = t.keys; count = t.count }
destroy-IsTable e a c (some alloc) t = record {
  keys = erase-IsMap e.header.object_id a.active_map t.keys;
  count = refl;
}

migrate-IsTable :
    (k : ℕ) (a : EventAnalyzer) (o : Option ActiveAllocation)
    → lookup k a.active_map ≡ o
    → IsTable a
    → IsTable (record a { active_map = migrate k a.active_map o })
unfolding migrate
migrate-IsTable k a none e t = record { keys = t.keys; count = t.count }
migrate-IsTable k a (some alloc) e t = record {
  keys = insert-IsMap k _ a.active_map t.keys;
  count = t.count ∙ sym (migrate-length k _ a.active_map alloc e);
}

handle_event-IsTable :
    (e : Event) (a : EventAnalyzer) (c : Option StatisticsCollector)
    → IsTable a
    → IsTable (handle_event e a c).0
unfolding handle_event handle_object_created handle_object_destroyed handle_migration_completed
handle_event-IsTable e a c t = elim (Bool-cases (e.header.type == EventType.object_created)) [
  | inl p ↦ simp p (record {
    keys = insert-IsMap e.header.object_id (allocation_of e) a.active_map t.keys;
    count = refl;
  })
  | inr p ↦ elim (Bool-cases (e.header.type == EventType.object_destroyed)) [
    | inl q ↦ simp (p, q) (destroy-IsTable e a c _ t)
    | inr q ↦ elim (Bool-cases (e.header.type == EventType.migration_completed)) [
      | inl r ↦ simp (p, q, r) (migrate-IsTable e.header.object_id a _ refl t)
      | inr r ↦ simp (p, q, r) t
    ]
  ]
]

pub process_event-IsTable :
    (e : Event) (a : EventAnalyzer) (c : Option StatisticsCollector)
    → IsTable a
    → IsTable (process_event e a c).0
unfolding process_event
process_event-IsTable e a c t =
    handle_event-IsTable e (count_event e a) c (count_event-IsTable e a t)

destroy-lookup :
    (e : Event) (a : EventAnalyzer) (c : Option StatisticsCollector) (o : Option ActiveAllocation)
    (k : ℕ)
    → IsTable a
    → lookup e.header.object_id a.active_map ≡ o
    → is_some (lookup k (destroy e a c o).0.active_map)
      ≡ (if e.header.object_id == k then false else is_some (lookup k a.active_map))
unfolding destroy
destroy-lookup e a c none k t h = ground arith
destroy-lookup e a c (some alloc) k t h =
    ground (arith, lookup-erase e.header.object_id k a.active_map t.keys)

migrate-lookup :
    (i k : ℕ) (m : List (ℕ × ActiveAllocation)) (o : Option ActiveAllocation)
    → lookup i m ≡ o
    → is_some (lookup k (migrate i m o)) ≡ is_some (lookup k m)
unfolding migrate
migrate-lookup i k m none h = refl
migrate-lookup i k m (some alloc) h =
    ground (arith, lookup-insert i k (record alloc { tier = Tier.ram }) m)

if_same : (b x : Bool) → (if b then x else x) ≡ x
if_same true x = refl
if_same false x = refl

handle_event-is_allocated :
    (e : Event) (a : EventAnalyzer) (c : Option StatisticsCollector) (k : ℕ)
    → IsTable a
    → is_allocated k (handle_event e a c).0 ≡ alive_after k e (is_allocated k a)
unfolding handle_event handle_object_created handle_object_destroyed handle_migration_completed
    is_allocated
handle_event-is_allocated e a c k t =
    elim (Bool-cases (e.header.type == EventType.object_created)) [
      | inl p ↦
          simp p (ground (arith, lookup-insert e.header.object_id k (allocation_of e) a.active_map))
      | inr p ↦ elim (Bool-cases (e.header.type == EventType.object_destroyed)) [
        | inl q ↦ simp (p, q) (destroy-lookup e a c _ k t refl)
        | inr q ↦ elim (Bool-cases (e.header.type == EventType.migration_completed)) [
          | inl r ↦
              simp (p, q, r)
                (migrate-lookup e.header.object_id k a.active_map _ refl
                  ∙ sym (if_same (e.header.object_id == k) _))
          | inr r ↦ simp (p, q, r) (sym (if_same (e.header.object_id == k) _))
        ]
      ]
    ]

process_event-is_allocated :
    (e : Event) (a : EventAnalyzer) (c : Option StatisticsCollector) (k : ℕ)
    → IsTable a
    → is_allocated k (process_event e a c).0 ≡ alive_after k e (is_allocated k a)
unfolding process_event is_allocated
process_event-is_allocated e a c k t =
    unfold is_allocated in
    handle_event-is_allocated e (count_event e a) c k (count_event-IsTable e a t)
    ∙ ap (λ m. alive_after k e (is_some (lookup k m))) (count_event-map e a)

-- From an analyzer whose table is well formed, after any sequence of events in any order:
-- `is_allocated` answers for every object whether the last creation or destruction of it, if there
-- is one, is a creation (and as before the sequence, if there is none); keys stay distinct, and
-- `active_allocations_count` is the number of entries.
pub process_all-alive :
    (es : List Event) (a : EventAnalyzer) (c : Option StatisticsCollector) (k : ℕ)
    → IsTable a
    → (is_allocated k (process_all es a c).0 ≡ alive k es (is_allocated k a))
      × IsTable (process_all es a c).0
unfolding process_all
process_all-alive [] a c k t = (refl, t)
process_all-alive (e ∷ es) a c k t =
    let (a', c') = process_event e a c in
    let (live, table) = process_all-alive es a' c' k (process_event-IsTable e a c t) in
    (live ∙ ap (alive k es) (process_event-is_allocated e a c k t), table)
