-- ===== src/Prelude/Map.antt =====
-- `std::unordered_map` with integer keys, as an association list. The order of iteration is the
-- list's. `insert` is `m[k] = v`; `lookup` is `find`; `erase` drops the key.
use Prim.Native.Nat.{ℕ, ◌+◌}
use mathlib.Core.Path.{◌≡◌, refl}
use mathlib.Core.Logic.{◌≢◌}
use mathlib.Core.List.{List, [], ◌∷◌}
use mathlib.Core.Option.{Option, none, some}
use native.Mathlib.Omega.{arith}
use ume.Prelude.Tests.{if◌then◌else◌, ◌==◌}
use ume.Prelude.Lists.{length}

module _ {ℓ} {V : Type ℓ} where
  abbrev pub lookup : ℕ → List (ℕ × V) → Option V
  lookup k [] = none
  lookup k ((j, v) ∷ m) = if j == k then some v else lookup k m

  abbrev pub insert : ℕ → V → List (ℕ × V) → List (ℕ × V)
  insert k v [] = (k, v) ∷ []
  insert k v ((j, w) ∷ m) = if j == k then (k, v) ∷ m else (j, w) ∷ insert k v m

  abbrev pub erase : ℕ → List (ℕ × V) → List (ℕ × V)
  erase k [] = []
  erase k ((j, w) ∷ m) = if j == k then m else (j, w) ∷ erase k m

  -- No entry has the key.
  abbrev pub Fresh : ℕ → List (ℕ × V) → Type 0
  Fresh k [] = Unit {0}
  Fresh k ((j, w) ∷ m) = (j ≢ k) × Fresh k m

  -- The keys of a map are distinct.
  abbrev pub IsMap : List (ℕ × V) → Type 0
  IsMap [] = Unit {0}
  IsMap ((j, w) ∷ m) = Fresh j m × IsMap m

  -- A weight added up over the values.
  abbrev pub total : (V → ℕ) → List (ℕ × V) → ℕ
  total w [] = 0
  total w ((j, v) ∷ m) = w v + total w m

module _ {ℓ} {V : Type ℓ} where
  pub lookup-insert :
      (k j : ℕ) (v : V) (m : List (ℕ × V))
      → lookup j (insert k v m) ≡ (if k == j then some v else lookup j m)
  lookup-insert k j v [] = refl
  lookup-insert k j v ((i, w) ∷ m) = ground (arith, lookup-insert k j v m)

  pub lookup-Fresh : (k : ℕ) (m : List (ℕ × V)) → Fresh k m → lookup k m ≡ none
  lookup-Fresh k [] f = refl
  lookup-Fresh k ((j, w) ∷ m) f = ground (arith, lookup-Fresh k m f.1)

  pub Fresh-lookup : (k : ℕ) (m : List (ℕ × V)) → lookup k m ≡ none → Fresh k m
  Fresh-lookup k [] e = tt
  Fresh-lookup k ((j, w) ∷ m) e = (ground arith, Fresh-lookup k m (ground arith))

  pub lookup-erase :
      (k j : ℕ) (m : List (ℕ × V))
      → IsMap m
      → lookup j (erase k m) ≡ (if k == j then none else lookup j m)
  lookup-erase k j [] d = ground arith
  lookup-erase k j ((i, w) ∷ m) d = ground (arith, lookup-erase k j m d.1, lookup-Fresh i m d.0)

  pub Fresh-insert :
      (k j : ℕ) (v : V) (m : List (ℕ × V)) → k ≢ j → Fresh j m → Fresh j (insert k v m)
  Fresh-insert k j v [] h f = (h, tt)
  Fresh-insert k j v ((i, w) ∷ m) h f = ground (arith, Fresh-insert k j v m h f.1)

  pub insert-IsMap : (k : ℕ) (v : V) (m : List (ℕ × V)) → IsMap m → IsMap (insert k v m)
  insert-IsMap k v [] d = (tt, tt)
  insert-IsMap k v ((i, w) ∷ m) d = ground (arith, insert-IsMap k v m d.1, Fresh-insert k i v m)

  pub Fresh-erase : (k j : ℕ) (m : List (ℕ × V)) → Fresh j m → Fresh j (erase k m)
  Fresh-erase k j [] f = tt
  Fresh-erase k j ((i, w) ∷ m) f = ground (arith, Fresh-erase k j m f.1)

  pub erase-IsMap : (k : ℕ) (m : List (ℕ × V)) → IsMap m → IsMap (erase k m)
  erase-IsMap k [] d = tt
  erase-IsMap k ((i, w) ∷ m) d = ground (arith, erase-IsMap k m d.1, Fresh-erase k i m d.0)

  pub total-insert_fresh :
      (f : V → ℕ) (k : ℕ) (v : V) (m : List (ℕ × V))
      → lookup k m ≡ none
      → total f (insert k v m) ≡ total f m + f v
  total-insert_fresh f k v [] e = omega arith
  total-insert_fresh f k v ((i, w) ∷ m) e = ground (arith, total-insert_fresh f k v m)

  pub total-erase :
      (f : V → ℕ) (k : ℕ) (v : V) (m : List (ℕ × V))
      → lookup k m ≡ some v
      → total f (erase k m) + f v ≡ total f m
  total-erase f k v [] e = absurd (ground arith)
  total-erase f k v ((i, w) ∷ m) e = ground (arith, total-erase f k v m)

  -- Overwriting a value exchanges its weight.
  pub total-insert_old :
      (f : V → ℕ) (k : ℕ) (v w : V) (m : List (ℕ × V))
      → lookup k m ≡ some w
      → total f (insert k v m) + f w ≡ total f m + f v
  total-insert_old f k v w [] e = absurd (ground arith)
  total-insert_old f k v w ((i, u) ∷ m) e = ground (arith, total-insert_old f k v w m)

  pub length-insert_fresh :
      (k : ℕ) (v : V) (m : List (ℕ × V)) → lookup k m ≡ none → length (insert k v m) ≡ length m + 1
  length-insert_fresh k v [] e = omega arith
  length-insert_fresh k v ((i, w) ∷ m) e = ground (arith, length-insert_fresh k v m)
