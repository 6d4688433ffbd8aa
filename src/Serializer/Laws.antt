-- ===== src/Serializer/Laws.antt =====
-- What `EventSerializer` promises.
use ume.Prelude.{ℕ, ◌≤◌, ◌≡◌, ◌∙◌, List, ◌++◌, drop, drop_exact, some, le→ltb}
use ume.Status.{ok, ◌>>=◌}
use ume.Event.{Event, IsEvent}
use ume.Event.Codec.{encode, decode-encode, decode_header-encode, length-encode}
use ume.Serializer.{sizeof_event, serialize, validate_header, validate, decode_buffer, deserialize}

-- An event that `validate` accepts.
abbrev pub IsAcceptable : Event → Type 0
IsAcceptable e = validate_header e.header ≡ ok tt

-- Reading back the bytes of an event succeeds exactly as `validate` says of its header, whatever
-- follows them in the buffer.
pub deserialize-encode :
    (e : Event) (rest : List ℕ) (size : ℕ)
    → IsEvent e
    → sizeof_event ≤ size
    → deserialize (some (encode e ++ rest)) size ≡ (validate_header e.header >>= λ _. ok e)
unfolding deserialize validate decode_buffer
deserialize-encode e rest size v h =
    rw (le→ltb size sizeof_event h, decode_header-encode e rest v, decode-encode e rest v)

-- Round trip: with 128 bytes of room, `serialize` reports 128 bytes, keeps the rest of the buffer,
-- and `deserialize` then gives back every acceptable event.
pub deserialize-serialize :
    (e : Event) (out : List ℕ) (max_size : ℕ)
    → IsEvent e
    → IsAcceptable e
    → sizeof_event ≤ max_size
    → (bytes : List ℕ) × (serialize e (some out) max_size ≡ ok (128, bytes))
      × (drop 128 bytes ≡ drop 128 out)
      × (deserialize (some bytes) max_size ≡ ok e)
unfolding serialize
deserialize-serialize e out max_size v a h = (
  encode e ++ drop 128 out,
  rw (le→ltb max_size sizeof_event h),
  drop_exact 128 (encode e) (drop 128 out) (length-encode e v),
  deserialize-encode e (drop 128 out) max_size v h ∙ rw a,
)
