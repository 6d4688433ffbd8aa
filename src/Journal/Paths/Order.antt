-- ===== src/Journal/Paths/Order.antt =====
-- Below a million the paths are in the order of their numbers.
use mathlib.Core.List.{Permᴰ}
use ume.Prelude.{
  ℕ, zero, suc, ◌+◌, ◌-◌, ◌*◌, ◌/◌, ◌%◌, ◌^◌, ◌≤◌, ◌<◌, ◌≡◌, refl, sym, ap, ap₂, subst, ◌∙◌, true,
  false, List, [], ◌∷◌, ◌++◌, append_assoc, arith, if◌then◌else◌, ltb, ◌==◌, Bool-cases, inl, inr,
}
use ume.Journal.Paths.{digits, build_segment_path, text_less, insert_path, sort_paths}

abbrev power_of_ten : ℕ → ℕ
power_of_ten zero = 1
power_of_ten (suc width) = 10 * power_of_ten width

-- The digits of a number that the width is enough for.
abbrev fixed : ℕ → ℕ → List ℕ
fixed zero n = []
fixed (suc width) n = fixed width (n / 10) ++ (n % 10 + 48) ∷ []

digits-fixed :
    (fuel width n : ℕ) → n < power_of_ten width → width ≤ fuel → digits fuel width n ≡ fixed width n
digits-fixed zero zero n h le = refl
digits-fixed zero (suc width) n h le = absurd (omega arith)
digits-fixed (suc fuel) zero n h le = ground arith
digits-fixed (suc fuel) (suc width) n h le =
    let more : (suc width == 0) ≡ false = ground arith in
    let less : suc width - 1 ≡ width = omega arith in
    simp (more, less)
      (ap (λ ds. ds ++ (n % 10 + 48) ∷ [])
        (digits-fixed fuel width (n / 10) (omega arith) (omega arith)))

fixed-less :
    (width a b : ℕ) (s t : List ℕ)
    → a < power_of_ten width
    → b < power_of_ten width
    → text_less (fixed width a ++ s) (fixed width b ++ t)
      ≡ (if ltb a b then true else if a == b then text_less s t else false)
fixed-less zero a b s t ha hb = ground arith
fixed-less (suc width) a b s t ha hb =
    ap₂ text_less (append_assoc (fixed width (a / 10)) ((a % 10 + 48) ∷ []) s)
      (append_assoc (fixed width (b / 10)) ((b % 10 + 48) ∷ []) t)
    ∙ fixed-less width (a / 10) (b / 10) ((a % 10 + 48) ∷ s) ((b % 10 + 48) ∷ t) (omega arith)
        (omega arith)
    ∙ ground arith

path-less :
    (a b : ℕ)
    → a < 10 ^ 6
    → b < 10 ^ 6
    → text_less (build_segment_path a) (build_segment_path b) ≡ ltb a b
unfolding build_segment_path
path-less a b ha hb =
    ap₂
      (λ x y.
        text_less (x ++ (46 ∷ 117 ∷ 109 ∷ 101 ∷ 106 ∷ [])) (y ++ (46 ∷ 117 ∷ 109 ∷ 101 ∷ 106 ∷ [])))
      (digits-fixed 20 6 a (omega arith) (omega arith))
      (digits-fixed 20 6 b (omega arith) (omega arith))
    ∙ fixed-less 6 a b (46 ∷ 117 ∷ 109 ∷ 101 ∷ 106 ∷ []) (46 ∷ 117 ∷ 109 ∷ 101 ∷ 106 ∷ [])
        (omega arith) (omega arith)
    ∙ ground arith

abbrev insert_number : ℕ → List ℕ → List ℕ
insert_number k [] = k ∷ []
insert_number k (j ∷ js) = if ltb k j then k ∷ j ∷ js else j ∷ insert_number k js

abbrev sort_numbers : List ℕ → List ℕ
sort_numbers [] = []
sort_numbers (k ∷ ks) = insert_number k (sort_numbers ks)

abbrev pub AllBelow : ℕ → List ℕ → Type 0
AllBelow bound [] = Unit {0}
AllBelow bound (k ∷ ks) = (k < bound) × AllBelow bound ks

insert_number-AllBelow :
    (bound k : ℕ) (ks : List ℕ)
    → k < bound
    → AllBelow bound ks
    → AllBelow bound (insert_number k ks)
insert_number-AllBelow bound k [] h hs = (h, tt)
insert_number-AllBelow bound k (j ∷ js) h (hj, hs) = elim (Bool-cases (ltb k j)) [
  | inl before ↦ simp before (h, (hj, hs))
  | inr behind ↦ simp behind (hj, insert_number-AllBelow bound k js h hs)
]

sort_numbers-AllBelow :
    (bound : ℕ) (ks : List ℕ) → AllBelow bound ks → AllBelow bound (sort_numbers ks)
sort_numbers-AllBelow bound [] h = tt
sort_numbers-AllBelow bound (k ∷ ks) (h, hs) =
    insert_number-AllBelow bound k (sort_numbers ks) h (sort_numbers-AllBelow bound ks hs)

insert_path-number :
    (k : ℕ) (js : List ℕ)
    → k < 10 ^ 6
    → AllBelow (10 ^ 6) js
    → insert_path k js ≡ insert_number k js
insert_path-number k [] h hs = refl
insert_path-number k (j ∷ js) h (hj, hs) =
    rw (path-less k j h hj, insert_path-number k js h hs) refl

sort_paths-numbers : (ks : List ℕ) → AllBelow (10 ^ 6) ks → sort_paths ks ≡ sort_numbers ks
unfolding sort_paths
sort_paths-numbers [] h = refl
sort_paths-numbers (k ∷ ks) (h, hs) =
    ap (insert_path k) (sort_paths-numbers ks hs)
    ∙ insert_path-number k (sort_numbers ks) h (sort_numbers-AllBelow (10 ^ 6) ks hs)

insert_comm :
    (a b : ℕ) (ks : List ℕ)
    → insert_number a (insert_number b ks) ≡ insert_number b (insert_number a ks)
insert_comm a b [] = ground arith
insert_comm a b (k ∷ ks) = ground (arith, insert_comm a b ks)

sort_numbers-perm : {ks js : List ℕ} → Permᴰ ks js → sort_numbers ks ≡ sort_numbers js
sort_numbers-perm Permᴰ.nil = refl
sort_numbers-perm (Permᴰ.cons e p) = ap₂ insert_number e (sort_numbers-perm p)
sort_numbers-perm (Permᴰ.swap {a} {b} {a'} {b'} {l} e f) =
    ap₂ (λ x y. insert_number x (insert_number y (sort_numbers l))) e f
    ∙ insert_comm b' a' (sort_numbers l)
sort_numbers-perm (Permᴰ.trans p q) = sort_numbers-perm p ∙ sort_numbers-perm q

AllBelow-perm : (bound : ℕ) {ks js : List ℕ} → Permᴰ ks js → AllBelow bound js → AllBelow bound ks
AllBelow-perm bound Permᴰ.nil h = tt
AllBelow-perm bound (Permᴰ.cons e p) (h, hs) =
    (subst (λ k. k < bound) (sym e) h, AllBelow-perm bound p hs)
AllBelow-perm bound (Permᴰ.swap e f) (ha, (hb, hs)) =
    (subst (λ k. k < bound) (sym e) hb, (subst (λ k. k < bound) (sym f) ha, hs))
AllBelow-perm bound (Permᴰ.trans p q) h = AllBelow-perm bound p (AllBelow-perm bound q h)

-- The paths `i, …, i + n - 1`.
abbrev pub paths_from : ℕ → ℕ → List ℕ
paths_from i zero = []
paths_from i (suc n) = i ∷ paths_from (i + 1) n

paths_from-AllBelow : (bound i n : ℕ) → i + n ≤ bound → AllBelow bound (paths_from i n)
paths_from-AllBelow bound i zero h = tt
paths_from-AllBelow bound i (suc n) h =
    (omega arith, paths_from-AllBelow bound (i + 1) n (omega arith))

sort_numbers-paths_from : (i n : ℕ) → sort_numbers (paths_from i n) ≡ paths_from i n
sort_numbers-paths_from i zero = refl
sort_numbers-paths_from i (suc n) =
    ap (insert_number i) (sort_numbers-paths_from (i + 1) n) ∙ first n
  where
    first : (n : ℕ) → insert_number i (paths_from (i + 1) n) ≡ i ∷ paths_from (i + 1) n
    first zero = refl
    first (suc n) = ground arith

-- In whatever order a directory of less than a million segments is listed, its paths are sorted by
-- number.
pub sort_paths-perm :
    (entries : List ℕ) (n : ℕ)
    → n ≤ 10 ^ 6
    → Permᴰ entries (paths_from 0 n)
    → sort_paths entries ≡ paths_from 0 n
sort_paths-perm entries n h p =
    sort_paths-numbers entries
      (AllBelow-perm (10 ^ 6) p (paths_from-AllBelow (10 ^ 6) 0 n (omega arith)))
    ∙ sort_numbers-perm p
    ∙ sort_numbers-paths_from 0 n
