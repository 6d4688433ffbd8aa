-- ===== src/Spsc/Ring.antt =====
-- The buffer as a ring: an unbounded index stands for its remainder.
use ume.Prelude.{
  ℕ, zero, suc, ◌+◌, ◌-◌, ◌*◌, ◌/◌, ◌%◌, ◌^◌, ◌≤◌, ◌<◌, ◌≡◌, refl, sym, ap, ap₂, subst, ◌∙◌, ◌≢◌,
  List, [], ◌∷◌, ◌++◌, arith, ==_refl, ne→==, length,
}
use ume.Bits.{bit_and_mask}
use ume.Spsc.{slot, store}
use Prim.Native.Nat.{◌∣◌}
use native.Mathlib.Nat.{
  dvd-mul_right, dvd-sub, le_of_dvd, div-add-mod, mod-mod_of_dvd, dvd_refl, pow-suc,
  dvd-mul_right_of_dvd,
}

pow-dvd : (k n : ℕ) → 2 ^ k ∣ 2 ^ (n + k)
pow-dvd k zero = subst (λ m. 2 ^ k ∣ 2 ^ m) (omega arith) (dvd_refl (2 ^ k))
pow-dvd k (suc n) =
    subst (λ m. 2 ^ k ∣ m) (sym (ap (λ m. 2 ^ m) (more n k) ∙ pow-suc 2 (n + k)))
      (dvd-mul_right_of_dvd (2 ^ k) (pow-dvd k n) 2)
  where
    more : (n k : ℕ) → suc n + k ≡ suc (n + k)
    more n k = omega arith

-- The masked index of a counter of 64 bits is the remainder of the counter that does not wrap.
pub slot_lem : (k i : ℕ) → k < 64 → slot k (i % 2 ^ 64) ≡ i % 2 ^ k
slot_lem k i h =
    bit_and_mask k (i % 2 ^ 64)
    ∙ mod-mod_of_dvd (2 ^ k) i (subst (λ m. 2 ^ k ∣ 2 ^ m) (minus k h) (pow-dvd k (64 - k)))
  where
    minus : (k : ℕ) → k < 64 → 64 - k + k ≡ 64
    minus k h = omega arith

-- Two indices less than a lap apart have different slots.
pub slots_differ : (c i j : ℕ) → i < j → j < i + c → i % c ≢ j % c
slots_differ c i j h g e =
    let part : c ∣ c * (j / c) - c * (i / c) =
      dvd-sub c (dvd-mul_right c (j / c)) (dvd-mul_right c (i / c)) in
    let gap : c * (j / c) - c * (i / c) ≡ j - i = omega (arith, div-add-mod j c, div-add-mod i c) in
    absurd
      (omega (arith, le_of_dvd {m = c} {n = j - i} (omega arith) (subst (λ d. c ∣ d) gap part)))

module _ {ℓ} {A : Type ℓ} where
  -- The items at `n` indices from `i` on.
  abbrev pub window : (ℕ → A) → ℕ → ℕ → ℕ → List A
  window buffer c i zero = []
  window buffer c i (suc n) = buffer (i % c) ∷ window buffer c (i + 1) n

  pub length-window : (buffer : ℕ → A) (c i n : ℕ) → length (window buffer c i n) ≡ n
  length-window buffer c i zero = refl
  length-window buffer c i (suc n) = ap suc (length-window buffer c (i + 1) n)

  pub window-snoc :
      (buffer : ℕ → A) (c i n : ℕ)
      → window buffer c i (suc n) ≡ window buffer c i n ++ buffer ((i + n) % c) ∷ []
  window-snoc buffer c i zero = ap (λ j. buffer (j % c) ∷ []) (omega arith)
  window-snoc buffer c i (suc n) = ap (◌∷◌ (buffer (i % c))) (
      window-snoc buffer c (i + 1) n
      ∙ ap (λ j. window buffer c (i + 1) n ++ buffer (j % c) ∷ []) (omega arith))

  pub store_other :
      (buffer : ℕ → A) (at i : ℕ) (item : A) → i ≢ at → store at item buffer i ≡ buffer i
  store_other buffer at i item h = rw (ne→== i at h) refl

  pub store_same : (buffer : ℕ → A) (at : ℕ) (item : A) → store at item buffer at ≡ item
  store_same buffer at item = rw (==_refl at) refl

  -- A store behind the window, less than a lap from its start.
  pub window-store :
      (buffer : ℕ → A) (c i n j : ℕ) (item : A)
      → i + n ≤ j
      → j < i + c
      → window (store (j % c) item buffer) c i n ≡ window buffer c i n
  window-store buffer c i zero j item h g = refl
  window-store buffer c i (suc n) j item h g =
      ap₂ ◌∷◌
        (store_other buffer (j % c) (i % c) item (slots_differ c i j (omega arith) (omega arith)))
        (window-store buffer c (i + 1) n j item (omega arith) (omega arith))
