-- ===== src/Serializer/Tests.antt =====
-- A sample event written to a buffer and read back.
use ume.Prelude.{ℕ, ◌≡◌, some, List, [], ◌∷◌, ◌++◌, arith, drop, replicate}
use ume.Status.{ok, ◌>>=◌}
use ume.Event.Codec.{encode}
use ume.Event.Samples.{created, created-valid}
use ume.Serializer.{serialize, deserialize, validate_header}
use ume.Serializer.Laws.{deserialize-encode, deserialize-serialize}

abbrev buffer : List ℕ
buffer = replicate 200 0xAA

deserialize-encode_example :
    deserialize (some (encode created ++ 1 ∷ 2 ∷ [])) 130
    ≡ (validate_header created.header >>= λ _. ok created)
deserialize-encode_example =
    deserialize-encode created (1 ∷ 2 ∷ []) 130 created-valid.0 (omega arith)

deserialize-serialize_example :
    (bytes : List ℕ) × (serialize created (some buffer) 200 ≡ ok (128, bytes))
    × (drop 128 bytes ≡ drop 128 buffer)
    × (deserialize (some bytes) 200 ≡ ok created)
deserialize-serialize_example =
    deserialize-serialize created buffer 200 created-valid.0 created-valid.1 (omega arith)
