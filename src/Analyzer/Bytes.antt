-- ===== src/Analyzer/Bytes.antt =====
-- The bytes that the analyzer holds to be active.
use ume.Prelude.{
  ℕ, ◌+◌, ◌^◌, ◌≤◌, ◌<◌, ◌≡◌, refl, sym, ap, subst, ◌∙◌, inl, inr, Option, none, some, List, [],
  ◌∷◌, arith, ltb, ◌==◌, Bool-cases, lookup, total, total-insert_fresh, total-erase,
  total-insert_old,
}
use ume.Event.{Event, object_size_bytes}
use ume.Types.EventType
use ume.Types.Tier
use ume.Statistics.{StatisticsCollector}
use ume.Analyzer.{
  ActiveAllocation, EventAnalyzer, allocation_of, handle_object_created, destroy,
  handle_object_destroyed, migrate, handle_migration_completed, count_event, handle_event,
  process_event, process_all,
}
use ume.Analyzer.Live.{count_event-map}

abbrev pub table_bytes : List (ℕ × ActiveAllocation) → ℕ
table_bytes = total (λ alloc. alloc.size_bytes)

-- The counter of active bytes is what the entries add up to, and the peak is not below it.
pub record IsAccount (a : EventAnalyzer) : Type 0 where
  pub bytes : a.context.active_bytes ≡ table_bytes a.active_map
  pub peak : a.context.active_bytes ≤ a.context.peak_bytes

-- A creation is of an object that has no entry, and its bytes still fit the counter.
pub record IsRegular (e : Event) (a : EventAnalyzer) : Type 0 where
  pub fresh :
      e.header.type ≡ EventType.object_created → lookup e.header.object_id a.active_map ≡ none
  pub fits :
      e.header.type ≡ EventType.object_created
      → table_bytes a.active_map + object_size_bytes e < 2 ^ 64

-- Every event of a sequence is regular when its turn comes.
abbrev pub AllRegular : List Event → EventAnalyzer → Option StatisticsCollector → Type 0
AllRegular [] a c = Unit {0}
AllRegular (e ∷ es) a c =
    IsRegular e a × (let (a', c') = process_event e a c in AllRegular es a' c')

created-IsAccount :
    (e : Event) (a : EventAnalyzer) (c : Option StatisticsCollector)
    → IsAccount a
    → lookup e.header.object_id a.active_map ≡ none
    → table_bytes a.active_map + object_size_bytes e < 2 ^ 64
    → IsAccount (handle_object_created e a c).0
unfolding handle_object_created
created-IsAccount e a c h fresh fits = record {
  bytes = omega (
    arith,
    h.bytes,
    fits,
    total-insert_fresh (λ alloc. alloc.size_bytes) e.header.object_id (allocation_of e) a.active_map
        fresh,
  );
  peak = omega arith;
}

destroy-IsAccount :
    (e : Event) (a : EventAnalyzer) (c : Option StatisticsCollector) (o : Option ActiveAllocation)
    → IsAccount a
    → lookup e.header.object_id a.active_map ≡ o
    → IsAccount (destroy e a c o).0
unfolding destroy
destroy-IsAccount e a c none h found = record { bytes = h.bytes; peak = h.peak }
destroy-IsAccount e a c (some alloc) h found =
    let split = total-erase (λ x. x.size_bytes) e.header.object_id alloc a.active_map found in
    record { bytes = ground (arith, h.bytes, split); peak = ground (arith, h.peak) }

migrate-IsAccount :
    (k : ℕ) (a : EventAnalyzer) (o : Option ActiveAllocation)
    → IsAccount a
    → lookup k a.active_map ≡ o
    → IsAccount (record a { active_map = migrate k a.active_map o })
unfolding migrate
migrate-IsAccount k a none h found = record { bytes = h.bytes; peak = h.peak }
migrate-IsAccount k a (some alloc) h found = record {
  bytes = omega (
    arith,
    h.bytes,
    total-insert_old (λ x. x.size_bytes) k (record alloc { tier = Tier.ram }) alloc a.active_map
        found,
  );
  peak = h.peak;
}

count_event-IsAccount : (e : Event) (a : EventAnalyzer) → IsAccount a → IsAccount (count_event e a)
unfolding count_event
count_event-IsAccount e a h = elim (Bool-cases (ltb e.header.timestamp a.last_timestamp)) [
  | inl p ↦ simp p (record { bytes = h.bytes; peak = h.peak })
  | inr p ↦ simp p (record { bytes = h.bytes; peak = h.peak })
]

handle_event-IsAccount :
    (e : Event) (a : EventAnalyzer) (c : Option StatisticsCollector)
    → IsAccount a
    → IsRegular e a
    → IsAccount (handle_event e a c).0
unfolding handle_event handle_object_destroyed handle_migration_completed
handle_event-IsAccount e a c h r = elim (Bool-cases (e.header.type == EventType.object_created)) [
  | inl p ↦
      let same : e.header.type ≡ EventType.object_created = ground arith in
      simp p (created-IsAccount e a c h (r.fresh same) (r.fits same))
  | inr p ↦ elim (Bool-cases (e.header.type == EventType.object_destroyed)) [
    | inl q ↦ simp (p, q) (destroy-IsAccount e a c _ h refl)
    | inr q ↦ elim (Bool-cases (e.header.type == EventType.migration_completed)) [
      | inl m ↦ simp (p, q, m) (migrate-IsAccount e.header.object_id a _ h refl)
      | inr m ↦ simp (p, q, m) h
    ]
  ]
]

count_event-IsRegular :
    (e : Event) (a : EventAnalyzer) → IsRegular e a → IsRegular e (count_event e a)
count_event-IsRegular e a r = record {
  fresh = λ p. ap (lookup e.header.object_id) (count_event-map e a) ∙ r.fresh p;
  fits = λ p.
      subst (λ m. table_bytes m + object_size_bytes e < 2 ^ 64) (sym (count_event-map e a))
        (r.fits p);
}

process_event-IsAccount :
    (e : Event) (a : EventAnalyzer) (c : Option StatisticsCollector)
    → IsAccount a
    → IsRegular e a
    → IsAccount (process_event e a c).0
unfolding process_event
process_event-IsAccount e a c h r =
    handle_event-IsAccount e (count_event e a) c (count_event-IsAccount e a h)
      (count_event-IsRegular e a r)

-- From an analyzer whose account is right, after any sequence of events in which a creation is only
-- ever of an object without an entry, and the bytes of the entries always fit 64 bits:
-- `active_bytes` is what the entries of the table add up to, and `peak_bytes` is not below it.
pub process_all-IsAccount :
    (es : List Event) (a : EventAnalyzer) (c : Option StatisticsCollector)
    → IsAccount a
    → AllRegular es a c
    → IsAccount (process_all es a c).0
unfolding process_all
process_all-IsAccount [] a c h r = h
process_all-IsAccount (e ∷ es) a c h (r, rs) =
    let (a', c') = process_event e a c in
    process_all-IsAccount es a' c' (process_event-IsAccount e a c h r) rs

-- A creation of an object that has an entry: the bytes of the old entry are counted on, so that
-- `active_bytes` exceeds what the entries add up to by them.
pub handle_object_created-twice :
    (e : Event) (a : EventAnalyzer) (c : Option StatisticsCollector) (old : ActiveAllocation)
    → IsAccount a
    → lookup e.header.object_id a.active_map ≡ some old
    → a.context.active_bytes + object_size_bytes e < 2 ^ 64
    → let (a', c') = handle_object_created e a c in
      a'.context.active_bytes ≡ table_bytes a'.active_map + old.size_bytes
unfolding handle_object_created
handle_object_created-twice e a c old h found fits = omega (
  arith,
  h.bytes,
  total-insert_old (λ x. x.size_bytes) e.header.object_id (allocation_of e) old a.active_map found,
)
