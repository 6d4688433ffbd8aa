-- ===== src/Serializer.antt =====
-- `EventSerializer` of core/src/event/event_serializer.cpp. A null buffer is `none`; a buffer is
-- the list of the bytes that it points to, and `size` is the caller's claim of its length.
pub mod Laws
mod Tests
use ume.Prelude.{ℕ, List, Bool, ◌&&◌, ◌++◌, ◌==◌, ltb, if◌then◌else◌, Option, none, some, drop}
use ume.Status.{Result, ok, err, ◌>>=◌, null_pointer, capacity_exceeded, serialization_error}
use ume.Event.{EventHeader, Event}
use ume.Event.Codec.{encode, decode, decode_header}
use ume.Types.Category
use ume.Types.EventType

abbrev pub sizeof_event : ℕ
sizeof_event = 128

-- The bytes written, and the buffer after the call.
unfoldable pub serialize : Event → Option (List ℕ) → ℕ → Result (ℕ × List ℕ)
serialize event none max_size = err null_pointer
serialize event (some out_buffer) max_size =
    if ltb max_size sizeof_event
    then err capacity_exceeded
    else ok (sizeof_event, encode event ++ drop sizeof_event out_buffer)

-- The checks of `validate` on the header.
unfoldable pub validate_header : EventHeader → Result (Unit {0})
validate_header header =
    if header.category == Category.unknown && header.type == EventType.unknown
    then if header.id == 0 && header.payload_size == 0 then ok tt else err serialization_error
    else if ltb 64 header.payload_size
    then err serialization_error
    else ok tt

unfoldable pub validate : Option (List ℕ) → ℕ → Result (Unit {0})
validate none size = err null_pointer
validate (some buffer) size =
    if ltb size sizeof_event
    then err serialization_error
    else validate_header (decode_header buffer)

unfoldable pub decode_buffer : Option (List ℕ) → Result Event
decode_buffer none = err null_pointer
decode_buffer (some buffer) = ok (decode buffer)

unfoldable pub deserialize : Option (List ℕ) → ℕ → Result Event
deserialize buffer size = do _ ← validate buffer size; decode_buffer buffer
