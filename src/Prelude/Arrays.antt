-- ===== src/Prelude/Arrays.antt =====
-- Arrays as functions of the index.
use Prim.Native.Nat.{ℕ}
use mathlib.Core.Path.{◌≡◌, refl}
use mathlib.Core.Logic.{◌≢◌}
use ume.Prelude.Tests.{if◌then◌else◌, ◌==◌, ==_refl, ne→==}

-- A store to one cell of an array.
abbrev pub put {ℓ} : {B : Type ℓ} → ℕ → B → (ℕ → B) → ℕ → B
put i x f j = if j == i then x else f j

pub put_same {ℓ} : {B : Type ℓ} (i : ℕ) (x : B) (f : ℕ → B) → put i x f i ≡ x
put_same i x f = simp (==_refl i) refl

pub put_other {ℓ} : {B : Type ℓ} (i j : ℕ) (x : B) (f : ℕ → B) → j ≢ i → put i x f j ≡ f j
put_other i j x f h = simp (ne→== j i h) refl
