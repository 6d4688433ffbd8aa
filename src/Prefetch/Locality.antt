-- ===== src/Prefetch/Locality.antt =====
-- Which accesses make a request.
use ume.Prelude.{
  ℕ, suc, ◌+◌, ◌≡◌, refl, ap, ap₂, ◌∙◌, inl, inr, Bool, true, false, not, ◌&&◌, some, List, [], ◌∷◌,
  ◌++◌, arith, ◌==◌, if◌then◌else◌, ==_iff, Bool-cases, sub64, lookup, insert, lookup-insert,
}
use ume.Floating.{Doubles}
use ume.Prefetch.{
  PrefetchRequest, PrefetchEngine, history_or_empty, remembered, detects_stride,
  new_prefetch_engine, analyze_locality, record_access, requests_for,
}

-- An access: what the clock reads, the object, the address.
pub record Access : Type 0 where
  pub now : ℕ
  pub object_id : ℕ
  pub address : ℕ

-- The addresses of an object, the latest first.
abbrev pub addresses : ℕ → List Access → List ℕ
addresses object_id [] = []
addresses object_id (a ∷ earlier) =
    let rest = addresses object_id earlier in
    if a.object_id == object_id then a.address ∷ rest else rest

-- The latest three addresses, the latest first, are one distance apart, and not the same.
abbrev pub evenly_spaced : List ℕ → Bool
evenly_spaced [] = false
evenly_spaced (a ∷ []) = false
evenly_spaced (b ∷ a ∷ []) = false
evenly_spaced (c ∷ b ∷ a ∷ earlier) = sub64 c b == sub64 b a && not (sub64 c b == 0)

-- How often that was so on the way.
abbrev pub strides : List ℕ → ℕ
strides [] = 0
strides (a ∷ earlier) =
    let rest = strides earlier in if evenly_spaced (a ∷ earlier) then suc rest else rest

-- The last five addresses in the order in which they came.
abbrev last_five : List ℕ → List ℕ
last_five [] = []
last_five (a ∷ []) = a ∷ []
last_five (b ∷ a ∷ []) = a ∷ b ∷ []
last_five (c ∷ b ∷ a ∷ []) = a ∷ b ∷ c ∷ []
last_five (e ∷ c ∷ b ∷ a ∷ []) = a ∷ b ∷ c ∷ e ∷ []
last_five (f ∷ e ∷ c ∷ b ∷ a ∷ earlier) = a ∷ b ∷ c ∷ e ∷ f ∷ []

remembered-last_five : (xs : List ℕ) (a : ℕ) → remembered (last_five xs) a ≡ last_five (a ∷ xs)
remembered-last_five [] x = refl
remembered-last_five (a ∷ []) x = refl
remembered-last_five (b ∷ a ∷ []) x = refl
remembered-last_five (c ∷ b ∷ a ∷ []) x = refl
remembered-last_five (e ∷ c ∷ b ∷ a ∷ []) x = refl
remembered-last_five (f ∷ e ∷ c ∷ b ∷ a ∷ earlier) x = refl

detects_stride-last_five : (xs : List ℕ) → detects_stride (last_five xs) ≡ evenly_spaced xs
detects_stride-last_five [] = refl
detects_stride-last_five (a ∷ []) = refl
detects_stride-last_five (b ∷ a ∷ []) = refl
detects_stride-last_five (c ∷ b ∷ a ∷ []) = refl
detects_stride-last_five (e ∷ c ∷ b ∷ a ∷ []) = refl
detects_stride-last_five (f ∷ e ∷ c ∷ b ∷ a ∷ earlier) = refl

counted : (b : Bool) (n : ℕ) → n + (if b then 1 else 0) ≡ (if b then suc n else n)
counted true n = omega arith
counted false n = omega arith

module _ (d : Doubles) where
  -- An engine after accesses, the latest of which is the first of the list.
  abbrev pub record_all : List Access → PrefetchEngine d
  record_all [] = new_prefetch_engine d
  record_all (a ∷ earlier) = record_access d a.now a.object_id a.address (record_all earlier)

  requests_for-append :
      (k : ℕ) (rs qs : List (PrefetchRequest d))
      → requests_for d k (rs ++ qs) ≡ requests_for d k rs + requests_for d k qs
  requests_for-append k [] qs = omega arith
  requests_for-append k (r ∷ rs) qs = ground (arith, requests_for-append k rs qs)

  history-analyze_locality :
      (now k : ℕ) (e : PrefetchEngine d)
      → (analyze_locality d now k e).access_history ≡ e.access_history
  unfolding analyze_locality
  history-analyze_locality now k e =
      elim (Bool-cases (detects_stride (history_or_empty (lookup k e.access_history)))) [
        | inl found ↦ rw found refl
        | inr not_found ↦ rw not_found refl
      ]

  history-insert :
      (k : ℕ) (a : Access) (earlier : List Access) (m : List (ℕ × List ℕ))
      → history_or_empty (lookup k m) ≡ last_five (addresses k earlier)
      → history_or_empty (
          if a.object_id == k
          then some (remembered (history_or_empty (lookup a.object_id m)) a.address)
          else lookup k m)
        ≡ last_five (addresses k (a ∷ earlier))
  history-insert k a earlier m h = elim (Bool-cases (a.object_id == k)) [
    | inl same ↦
        let id : a.object_id ≡ k = (==_iff a.object_id k).0 same in
        rw same (
          ap (λ i. remembered (history_or_empty (lookup i m)) a.address) id
          ∙ ap (λ history. remembered history a.address) h
          ∙ remembered-last_five (addresses k earlier) a.address)
    | inr other ↦ rw other h
  ]

  -- An engine that has taken an address down and not looked at it.
  abbrev noted : Access → PrefetchEngine d → PrefetchEngine d
  noted a e = record e {
    access_history =
        insert a.object_id
          (remembered (history_or_empty (lookup a.object_id e.access_history)) a.address)
          e.access_history;
  }

  history-noted :
      (k : ℕ) (a : Access) (earlier : List Access) (e : PrefetchEngine d)
      → history_or_empty (lookup k e.access_history) ≡ last_five (addresses k earlier)
      → history_or_empty (lookup k (noted a e).access_history)
        ≡ last_five (addresses k (a ∷ earlier))
  history-noted k a earlier e h =
      let longer = remembered (history_or_empty (lookup a.object_id e.access_history)) a.address in
      ap history_or_empty (lookup-insert a.object_id k longer e.access_history)
      ∙ history-insert k a earlier e.access_history h

  -- The history of each object is its last five addresses.
  history-record_all :
      (k : ℕ) (accesses : List Access)
      → history_or_empty (lookup k (record_all accesses).access_history)
        ≡ last_five (addresses k accesses)
  unfolding record_access
  history-record_all k [] = refl
  history-record_all k (a ∷ earlier) =
      ap (λ m. history_or_empty (lookup k m))
        (history-analyze_locality a.now a.object_id (noted a (record_all earlier)))
      ∙ history-noted k a earlier (record_all earlier) (history-record_all k earlier)

  -- What the analysis adds to the queue.
  requests_for-analyze_locality :
      (k now object_id : ℕ) (e : PrefetchEngine d)
      → requests_for d k (analyze_locality d now object_id e).prefetch_queue
        ≡ requests_for d k e.prefetch_queue
          + (if detects_stride (history_or_empty (lookup object_id e.access_history))
              then if object_id == k then 1 else 0
              else 0)
  unfolding analyze_locality
  requests_for-analyze_locality k now object_id e =
      elim (Bool-cases (detects_stride (history_or_empty (lookup object_id e.access_history)))) [
        | inl found ↦ rw found (requests_for-append k e.prefetch_queue _)
        | inr not_found ↦ rw not_found (omega arith)
      ]

  strides-step :
      (k : ℕ) (a : Access) (earlier : List Access)
      → strides (addresses k earlier)
          + (if evenly_spaced (addresses a.object_id (a ∷ earlier))
              then if a.object_id == k then 1 else 0
              else 0)
        ≡ strides (addresses k (a ∷ earlier))
  strides-step k a earlier = elim (Bool-cases (a.object_id == k)) [
    | inl same ↦
        ap
          (λ i.
            strides (addresses k earlier)
            + (if evenly_spaced (addresses i (a ∷ earlier))
                then if a.object_id == k then 1 else 0
                else 0))
          ((==_iff a.object_id k).0 same)
        ∙ rw same (
            counted (evenly_spaced (a.address ∷ addresses k earlier))
              (strides (addresses k earlier)))
    | inr other ↦ rw other (ground arith)
  ]

  -- After any accesses of any objects, the queue holds for each object as many requests as there
  -- were accesses of it that made its latest three addresses evenly spaced and not equal, although
  -- the engine remembers no more than five addresses of it.
  pub requests_for-record_all :
      (k : ℕ) (accesses : List Access)
      → requests_for d k (record_all accesses).prefetch_queue ≡ strides (addresses k accesses)
  unfolding record_access
  requests_for-record_all k [] = refl
  requests_for-record_all k (a ∷ earlier) =
      let e = record_all earlier in
      let h = history-noted a.object_id a earlier e (history-record_all a.object_id earlier) in
      let found =
        ap detects_stride h ∙ detects_stride-last_five (addresses a.object_id (a ∷ earlier)) in
      requests_for-analyze_locality k a.now a.object_id (noted a e)
      ∙ ap₂ (λ n b. n + (if b then if a.object_id == k then 1 else 0 else 0))
          (requests_for-record_all k earlier) found
      ∙ strides-step k a earlier
