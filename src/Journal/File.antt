-- ===== src/Journal/File.antt =====
-- A mapped file: its size and its bytes. `memcpy` into and out of the mapping.
use ume.Prelude.{
  ℕ, zero, suc, ◌+◌, ◌≤◌, ◌<◌, ◌≡◌, refl, ap, ap₂, ◌∙◌, List, [], ◌∷◌, length, take, replicate,
  ◌==◌, if◌then◌else◌, arith,
}

pub record File : Type 0 where
  pub size : ℕ
  pub byte : ℕ → ℕ

abbrev pub update : (ℕ → ℕ) → ℕ → ℕ → ℕ → ℕ
update byte off b i = if i == off then b else byte i

-- The `n` bytes from `off` on.
pub read_from : (ℕ → ℕ) → ℕ → ℕ → List ℕ
read_from byte off zero = []
read_from byte off (suc n) = byte off ∷ read_from byte (off + 1) n

pub write_to : (ℕ → ℕ) → ℕ → List ℕ → ℕ → ℕ
write_to byte off [] = byte
write_to byte off (b ∷ bs) = update (write_to byte (off + 1) bs) off b

unfoldable pub read_bytes : File → ℕ → ℕ → List ℕ
unfolding read_from
read_bytes f off n = read_from f.byte off n

unfoldable pub write_bytes : File → ℕ → List ℕ → File
unfolding write_to
write_bytes f off bs = record f { byte = write_to f.byte off bs }

-- Two files that agree on a range read alike.
read_from-congr :
    (f g : ℕ → ℕ) (off n : ℕ)
    → ((i : ℕ) → off ≤ i → i < off + n → f i ≡ g i)
    → read_from f off n ≡ read_from g off n
unfolding read_from
read_from-congr f g off zero h = refl
read_from-congr f g off (suc n) h =
    ap₂ ◌∷◌ (h off (omega arith) (omega arith))
      (read_from-congr f g (off + 1) n (λ i p q. h i (omega arith) (omega arith)))

write_to-before :
    (byte : ℕ → ℕ) (off : ℕ) (bs : List ℕ) (i : ℕ) → i < off → write_to byte off bs i ≡ byte i
unfolding write_to
write_to-before byte off [] i h = refl
write_to-before byte off (b ∷ bs) i h = ground (arith, write_to-before byte (off + 1) bs i)

write_to-after :
    (byte : ℕ → ℕ) (off : ℕ) (bs : List ℕ) (i : ℕ)
    → off + length bs ≤ i
    → write_to byte off bs i ≡ byte i
unfolding write_to
write_to-after byte off [] i h = refl
write_to-after byte off (b ∷ bs) i h = ground (arith, write_to-after byte (off + 1) bs i)

read_from-write_to :
    (byte : ℕ → ℕ) (off : ℕ) (bs : List ℕ) → read_from (write_to byte off bs) off (length bs) ≡ bs
unfolding read_from write_to
read_from-write_to byte off [] = refl
read_from-write_to byte off (b ∷ bs) = ap₂ ◌∷◌ (ground arith) (
    read_from-congr (update (write_to byte (off + 1) bs) off b) (write_to byte (off + 1) bs)
      (off + 1) (length bs) (λ i p q. ground arith)
    ∙ read_from-write_to byte (off + 1) bs)

-- What was written is read back.
pub read-write_self :
    (f : File) (off : ℕ) (bs : List ℕ) (n : ℕ)
    → length bs ≡ n
    → read_bytes (write_bytes f off bs) off n ≡ bs
unfolding read_bytes write_bytes
read-write_self f off bs n h =
    ap (read_from (write_to f.byte off bs) off) (omega arith) ∙ read_from-write_to f.byte off bs

-- A write leaves the bytes below it alone, and those above it.
pub read-write_before :
    (f : File) (off : ℕ) (bs : List ℕ) (at n : ℕ)
    → at + n ≤ off
    → read_bytes (write_bytes f off bs) at n ≡ read_bytes f at n
unfolding read_bytes write_bytes
read-write_before f off bs at n h =
    read_from-congr (write_to f.byte off bs) f.byte at n
      (λ i p q. write_to-before f.byte off bs i (omega arith))

pub byte-write_after :
    (f : File) (off : ℕ) (bs : List ℕ) (i : ℕ)
    → off + length bs ≤ i
    → (write_bytes f off bs).byte i ≡ f.byte i
unfolding write_bytes
byte-write_after f off bs i h = write_to-after f.byte off bs i h

take-read_from :
    (byte : ℕ → ℕ) (off k n : ℕ) → k ≤ n → take k (read_from byte off n) ≡ read_from byte off k
unfolding read_from
take-read_from byte off zero n h = refl
take-read_from byte off (suc k) zero h = absurd (omega arith)
take-read_from byte off (suc k) (suc n) h =
    ap (◌∷◌ (byte off)) (take-read_from byte (off + 1) k n (omega arith))

-- A shorter read is a prefix of a longer one.
pub take-read : (f : File) (off k n : ℕ) → k ≤ n → take k (read_bytes f off n) ≡ read_bytes f off k
unfolding read_bytes
take-read f off k n h = take-read_from f.byte off k n h

-- The bytes from `off` on are zero.
abbrev pub Blank : File → ℕ → Type 0
Blank f off = (i : ℕ) → off ≤ i → f.byte i ≡ 0

read_from-zeros :
    (byte : ℕ → ℕ) (off n : ℕ)
    → ((i : ℕ) → off ≤ i → byte i ≡ 0)
    → read_from byte off n ≡ replicate n 0
unfolding read_from
read_from-zeros byte off zero h = refl
read_from-zeros byte off (suc n) h =
    ap₂ ◌∷◌ (h off (omega arith)) (read_from-zeros byte (off + 1) n (λ i p. h i (omega arith)))

pub read-Blank : (f : File) (off n : ℕ) → Blank f off → read_bytes f off n ≡ replicate n 0
unfolding read_bytes
read-Blank f off n h = read_from-zeros f.byte off n h
