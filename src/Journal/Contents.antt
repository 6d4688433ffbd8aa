-- ===== src/Journal/Contents.antt =====
-- What a segment file holds: a sound header, records one after the other, and zeros.
use ume.Prelude.{
  ℕ, ◌+◌, ◌*◌, ◌≤◌, ◌≡◌, refl, ap₂, ◌∙◌, true, List, [], ◌∷◌, ◌++◌, length, ==_refl, take, le→ltb,
  subst, length-append, arith,
}
use ume.Crc.{compute_crc32}
use ume.Event.{Event, IsEvent}
use ume.Event.Codec.{encode, length-encode}
use ume.Journal.File.{
  File, read_bytes, write_bytes, Blank, read-write_self, read-write_before, byte-write_after,
}
use ume.Journal.Format.{
  encode_record_header, encode_segment_header, length-encode_record_header,
  length-encode_segment_header, encode_segment_header-crc, encode_segment_header-magic,
}
use ume.Journal.Reader.{check_header, check_segment}

-- A sequence number and the event recorded under it.
abbrev pub Entry : Type 0
Entry = ℕ × Event

abbrev pub Record : File → ℕ → Entry → Type 0
Record f off (seq, e) =
    (read_bytes f off 32 ≡ encode_record_header seq e) × (read_bytes f (off + 32) 128 ≡ encode e)

abbrev pub Records : File → ℕ → List Entry → Type 0
Records f off [] = Blank f off
Records f off (r ∷ rs) = Record f off r × Records f (off + 160) rs

pub record Segment (size : ℕ) (f : File) (rs : List Entry) : Type 0 where
  pub sized : f.size ≡ size
  pub sound : check_segment f ≡ true
  pub records : Records f 64 rs
  pub room : 64 + 160 * length rs ≤ size

-- The two stores of `append`.
abbrev pub write_entry : File → ℕ → ℕ → Event → File
write_entry f at seq e =
    write_bytes (write_bytes f at (encode_record_header seq e)) (at + 32) (encode e)

-- The stores leave what stands below them alone.
pub read-write_entry :
    (f : File) (at seq off n : ℕ) (e : Event)
    → off + n ≤ at
    → read_bytes (write_entry f at seq e) off n ≡ read_bytes f off n
read-write_entry f at seq off n e h =
    read-write_before (write_bytes f at (encode_record_header seq e)) (at + 32) (encode e) off n
      (omega arith)
    ∙ read-write_before f at (encode_record_header seq e) off n h

Record-write_entry :
    (f : File) (at seq : ℕ) (e : Event) → IsEvent e → Record (write_entry f at seq e) at (seq, e)
Record-write_entry f at seq e v = (
  read-write_before (write_bytes f at (encode_record_header seq e)) (at + 32) (encode e) at 32
        (omega arith)
      ∙ read-write_self f at (encode_record_header seq e) 32 (length-encode_record_header seq e),
  read-write_self (write_bytes f at (encode_record_header seq e)) (at + 32) (encode e) 128
      (length-encode e v),
)

Blank-write_entry :
    (f : File) (at seq : ℕ) (e : Event)
    → IsEvent e
    → Blank f at
    → Blank (write_entry f at seq e) (at + 160)
Blank-write_entry f at seq e v blank i h =
    byte-write_after (write_bytes f at (encode_record_header seq e)) (at + 32) (encode e) i
      (omega (arith, length-encode e v))
    ∙ (byte-write_after f at (encode_record_header seq e) i
          (omega (arith, length-encode_record_header seq e))
        ∙ blank i (omega arith))

-- A record written behind the last one is appended.
pub Records-write_entry :
    (f : File) (off : ℕ) (rs : List Entry) (at seq : ℕ) (e : Event)
    → IsEvent e
    → off + 160 * length rs ≡ at
    → Records f off rs
    → Records (write_entry f at seq e) off (rs ++ (seq, e) ∷ [])
Records-write_entry f off [] at seq e v h blank =
    subst (λ k. Records (write_entry f at seq e) k ((seq, e) ∷ [])) (omega arith)
      (
        Record-write_entry f at seq e v,
        Blank-write_entry f at seq e v (subst (Blank f) (omega arith) blank),
      )
Records-write_entry f off ((n, d) ∷ rs) at seq e v h ((head, payload), rest) = (
  (
    read-write_entry f at seq off 32 e (omega arith) ∙ head,
    read-write_entry f at seq (off + 32) 128 e (omega arith) ∙ payload,
  ),
  Records-write_entry f (off + 160) rs at seq e v (omega arith) rest,
)

-- Whether a header is sound is read off the first 64 bytes.
pub check_segment-congr :
    (f g : File)
    → f.size ≡ g.size
    → read_bytes f 0 64 ≡ read_bytes g 0 64
    → check_segment f ≡ check_segment g
unfolding check_segment
check_segment-congr f g p q = ap₂ check_header p q

pub Segment-write_entry :
    {size : ℕ} {f : File} (rs : List Entry) (seq : ℕ) (e : Event)
    → IsEvent e
    → Segment size f rs
    → 64 + 160 * (length rs + 1) ≤ size
    → Segment size (write_entry f (64 + 160 * length rs) seq e) (rs ++ (seq, e) ∷ [])
Segment-write_entry {size} {f} rs seq e v s room = record {
  sized = unfold write_bytes in s.sized;
  sound =
      check_segment-congr (write_entry f (64 + 160 * length rs) seq e) f
        (unfold write_bytes in refl)
        (read-write_entry f (64 + 160 * length rs) seq 0 64 e (omega arith))
      ∙ s.sound;
  records = Records-write_entry f 64 rs (64 + 160 * length rs) seq e v refl s.records;
  room = omega (arith, length-append {0} rs ((seq, e) ∷ []));
}

-- A fresh file of zeros with a header written to it is an empty segment.
pub Segment-fresh :
    (size id now : ℕ) (f : File)
    → 64 ≤ size
    → f.size ≡ size
    → Blank f 0
    → Segment size (write_bytes f 0 (encode_segment_header id now size)) []
Segment-fresh size id now f h sized blank = record {
  sized = unfold write_bytes in sized;
  sound = unfold check_segment in ap₂ check_header same_size header ∙ sound_header;
  records = λ i p.
      byte-write_after f 0 (encode_segment_header id now size) i
        (omega (arith, length-encode_segment_header id now size))
      ∙ blank i (omega arith);
  room = omega arith;
}
  where
    same_size : (write_bytes f 0 (encode_segment_header id now size)).size ≡ size
    same_size = unfold write_bytes in sized

    header :
        read_bytes (write_bytes f 0 (encode_segment_header id now size)) 0 64
        ≡ encode_segment_header id now size
    header =
        read-write_self f 0 (encode_segment_header id now size) 64
          (length-encode_segment_header id now size)

    sound_header : check_header size (encode_segment_header id now size) ≡ true
    sound_header =
        unfold check_header in
        rw (
          le→ltb size 64 h,
          encode_segment_header-magic id now size,
          encode_segment_header-crc id now size,
          ==_refl (compute_crc32 (take 32 (encode_segment_header id now size))),
        )
