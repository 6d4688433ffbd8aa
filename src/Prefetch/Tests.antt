-- ===== src/Prefetch/Tests.antt =====
-- Accesses of two objects, and a system of threads that takes one of the requests that they make.
use ume.Prelude.{ℕ, ◌≡◌, refl, some, List, [], ◌∷◌}
use ume.Floating.Samples.{thousandths}
use ume.Placement.{new_engine}
use ume.Prefetch.{new_prefetch_engine, requests_for, stride_request}
use ume.Prefetch.Locality.{Access, addresses, strides, record_all, requests_for-record_all}
use ume.Prefetch.Worker.{
  PrefetchSystem, absent, Action, records, submits, cancels, starts, asks_to_stop, joins, works,
  act_all,
}
use ume.Prefetch.Accounts.{SystemAccounted, act_all-IsAccounted}

abbrev access : ℕ → ℕ → Access
access object_id address = record { now = 100; object_id = object_id; address = address }

-- The latest first: seven accesses of one object, the last three of which go down.
abbrev accesses : List Access
accesses =
    access 7 100
    ∷ access 7 200
    ∷ access 9 64
    ∷ access 7 300
    ∷ access 7 260
    ∷ access 9 64
    ∷ access 7 220
    ∷ access 7 180
    ∷ access 7 140
    ∷ []

four_requests : strides (addresses 7 accesses) ≡ 4
four_requests = refl

requests_for-record_all_example :
    requests_for thousandths 7 (record_all thousandths accesses).prefetch_queue
    ≡ strides (addresses 7 accesses)
requests_for-record_all_example = requests_for-record_all thousandths 7 accesses

abbrev system : PrefetchSystem thousandths
system = record {
  engine = new_prefetch_engine thousandths;
  worker = absent;
  placement = new_engine 1000 1000 1000;
}

abbrev actions : List (Action thousandths)
actions =
    records 10 7 100
    ∷ records 20 7 200
    ∷ starts
    ∷ records 30 7 300
    ∷ works 40 45
    ∷ submits (stride_request thousandths 50 8 ∷ stride_request thousandths 50 9 ∷ [])
    ∷ works 60 65
    ∷ cancels 9
    ∷ asks_to_stop
    ∷ works 70 75
    ∷ joins
    ∷ []

act_all-IsAccounted_example :
    SystemAccounted thousandths (act_all thousandths actions (some system))
act_all-IsAccounted_example =
    act_all-IsAccounted thousandths actions system (record { balance = refl; hits = refl })
