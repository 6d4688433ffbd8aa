-- ===== src/Journal/Format.antt =====
-- `JournalSegmentHeader` and `JournalRecordHeader` of core/include/ume/event/journal_writer.h, as
-- the bytes that the writer copies into a segment.
use ume.Prelude.{ℕ, ◌≡◌, refl, List, ◌++◌, length, take, replicate}
use ume.Bytes.{to_le, field, of_le-to_le}
use ume.Crc.{compute_crc32, compute_crc32-lt}
use ume.Event.{Event}
use ume.Event.Codec.{encode}

abbrev pub segment_magic : ℕ
segment_magic = 0x554D454A

abbrev pub record_magic : ℕ
record_magic = 0x52454344

abbrev pub sizeof_segment_header : ℕ
sizeof_segment_header = 64

abbrev pub sizeof_record_header : ℕ
sizeof_record_header = 32

-- `total_record_size`: a record header and an event.
abbrev pub record_bytes : ℕ
record_bytes = 160

-- The first 32 bytes of a segment header, which its checksum covers.
abbrev pub segment_header_fields : ℕ → ℕ → ℕ → List ℕ
segment_header_fields segment_id created segment_size =
    to_le 4 segment_magic
    ++ (to_le 2 1
        ++ (to_le 2 0 ++ (to_le 8 segment_id ++ (to_le 8 created ++ to_le 8 segment_size))))

unfoldable pub encode_segment_header : ℕ → ℕ → ℕ → List ℕ
encode_segment_header segment_id created segment_size =
    let fields = segment_header_fields segment_id created segment_size in
    fields ++ (to_le 4 (compute_crc32 fields) ++ replicate 28 0)

-- The first 20 bytes of a record header, which its checksum covers.
abbrev pub record_header_fields : ℕ → ℕ → List ℕ
record_header_fields seq payload_crc =
    to_le 4 record_magic ++ (to_le 4 record_bytes ++ (to_le 8 seq ++ to_le 4 payload_crc))

unfoldable pub encode_record_header : ℕ → Event → List ℕ
encode_record_header seq event =
    let fields = record_header_fields seq (compute_crc32 (encode event)) in
    fields ++ (to_le 4 (compute_crc32 fields) ++ replicate 8 0)

-- The fields of a record header, and of a segment header, at their offsets.
abbrev pub record_magic_of : List ℕ → ℕ
record_magic_of = field 0 4

abbrev pub record_size_of : List ℕ → ℕ
record_size_of = field 4 4

abbrev pub payload_crc32_of : List ℕ → ℕ
payload_crc32_of = field 16 4

abbrev pub header_crc32_of : List ℕ → ℕ
header_crc32_of = field 20 4

abbrev pub segment_magic_of : List ℕ → ℕ
segment_magic_of = field 0 4

abbrev pub segment_crc32_of : List ℕ → ℕ
segment_crc32_of = field 32 4

pub length-encode_record_header : (seq : ℕ) (e : Event) → length (encode_record_header seq e) ≡ 32
unfolding encode_record_header
length-encode_record_header seq e = refl

pub length-encode_segment_header : (i t n : ℕ) → length (encode_segment_header i t n) ≡ 64
unfolding encode_segment_header
length-encode_segment_header i t n = refl

-- What the reader finds in a record header that the writer built.
pub record IsRecordHeader (bs : List ℕ) (e : Event) : Type 0 where
  pub magic : record_magic_of bs ≡ record_magic
  pub size : record_size_of bs ≡ record_bytes
  pub header_crc : header_crc32_of bs ≡ compute_crc32 (take 20 bs)
  pub payload_crc : payload_crc32_of bs ≡ compute_crc32 (encode e)

pub encode_record_header-fields :
    (seq : ℕ) (e : Event) → IsRecordHeader (encode_record_header seq e) e
unfolding encode_record_header
encode_record_header-fields seq e = record {
  magic = refl;
  size = refl;
  header_crc =
      of_le-to_le 4 (compute_crc32 (record_header_fields seq (compute_crc32 (encode e))))
        (compute_crc32-lt (record_header_fields seq (compute_crc32 (encode e))));
  payload_crc = of_le-to_le 4 (compute_crc32 (encode e)) (compute_crc32-lt (encode e));
}

pub encode_segment_header-crc :
    (i t n : ℕ)
    → segment_crc32_of (encode_segment_header i t n)
      ≡ compute_crc32 (take 32 (encode_segment_header i t n))
unfolding encode_segment_header
encode_segment_header-crc i t n =
    of_le-to_le 4 (compute_crc32 (segment_header_fields i t n))
      (compute_crc32-lt (segment_header_fields i t n))

pub encode_segment_header-magic :
    (i t n : ℕ) → segment_magic_of (encode_segment_header i t n) ≡ segment_magic
unfolding encode_segment_header
encode_segment_header-magic i t n = refl
