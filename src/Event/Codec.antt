-- ===== src/Event/Codec.antt =====
-- The object representation of an event: what `memcpy` moves between an `Event` and its 128 bytes.
use ume.Prelude.{
  ℕ, ◌≡◌, ap, ◌∙◌, List, ◌++◌, length, take, drop, length-append, take_exact, drop_exact,
  append_assoc, arith,
}
use ume.Bytes.{to_le, field, of_le-to_le}
use ume.Event.{EventHeader, Event, IsEvent}

pub encode_header : EventHeader → List ℕ
encode_header h =
    to_le 8 h.id
    ++ (to_le 8 h.timestamp
        ++ (to_le 8 h.object_id
            ++ (to_le 2 h.type
                ++ (to_le 1 h.category
                    ++ (to_le 1 h.priority
                        ++ (to_le 4 h.flags
                            ++ (to_le 2 h.source_tier
                                ++ (to_le 2 h.target_tier
                                    ++ (to_le 4 h.payload_size
                                        ++ (to_le 4 h.sequence_num ++ h.reserved))))))))))

unfoldable pub decode_header : List ℕ → EventHeader
decode_header bs = record {
  id = field 0 8 bs;
  timestamp = field 8 8 bs;
  object_id = field 16 8 bs;
  type = field 24 2 bs;
  category = field 26 1 bs;
  priority = field 27 1 bs;
  flags = field 28 4 bs;
  source_tier = field 32 2 bs;
  target_tier = field 34 2 bs;
  payload_size = field 36 4 bs;
  sequence_num = field 40 4 bs;
  reserved = take 20 (drop 44 bs);
}

unfoldable pub encode : Event → List ℕ
unfolding encode_header
encode e = encode_header e.header ++ e.payload

unfoldable pub decode : List ℕ → Event
unfolding decode_header
decode bs = record { header = decode_header bs; payload = take 64 (drop 64 bs) }

pub length-encode : (e : Event) → IsEvent e → length (encode e) ≡ 128
unfolding encode
length-encode e v = ground (arith, length-append e.header.reserved e.payload)

-- Decoding the bytes of an event gives its header back, whatever follows them.
pub decode_header-encode :
    (e : Event) (rest : List ℕ) → IsEvent e → decode_header (encode e ++ rest) ≡ e.header
unfolding encode decode_header
decode_header-encode e rest v = λ i. record {
  id = of_le-to_le 8 e.header.id v.header.id i;
  timestamp = of_le-to_le 8 e.header.timestamp v.header.timestamp i;
  object_id = of_le-to_le 8 e.header.object_id v.header.object_id i;
  type = of_le-to_le 2 e.header.type v.header.type i;
  category = of_le-to_le 1 e.header.category v.header.category i;
  priority = of_le-to_le 1 e.header.priority v.header.priority i;
  flags = of_le-to_le 4 e.header.flags v.header.flags i;
  source_tier = of_le-to_le 2 e.header.source_tier v.header.source_tier i;
  target_tier = of_le-to_le 2 e.header.target_tier v.header.target_tier i;
  payload_size = of_le-to_le 4 e.header.payload_size v.header.payload_size i;
  sequence_num = of_le-to_le 4 e.header.sequence_num v.header.sequence_num i;
  reserved = after_fields i;
}
  where
    after_fields : take 20 ((e.header.reserved ++ e.payload) ++ rest) ≡ e.header.reserved
    after_fields =
        rw (append_assoc e.header.reserved e.payload rest)
          (take_exact 20 e.header.reserved (e.payload ++ rest) v.header.reserved)

payload-encode :
    (e : Event) (rest : List ℕ) → IsEvent e → take 64 (drop 64 (encode e ++ rest)) ≡ e.payload
unfolding encode
payload-encode e rest v = ap (take 64) past_header ∙ take_exact 64 e.payload rest v.payload
  where
    past_header : drop 20 ((e.header.reserved ++ e.payload) ++ rest) ≡ e.payload ++ rest
    past_header =
        rw (append_assoc e.header.reserved e.payload rest)
          (drop_exact 20 e.header.reserved (e.payload ++ rest) v.header.reserved)

-- Decoding the bytes of an event gives the event back, whatever follows them.
pub decode-encode : (e : Event) (rest : List ℕ) → IsEvent e → decode (encode e ++ rest) ≡ e
unfolding decode
decode-encode e rest v =
    λ i. record { header = decode_header-encode e rest v i; payload = payload-encode e rest v i }
