-- ===== src/Status.antt =====
-- core/include/ume/status.h: status codes and results.
use Prim.Native.String.{String}
use ume.Prelude.{Bool, true, false, if◌then◌else◌}

-- `Status`.
pub data Status : Type 0 where
  k_ok : Status
  invalid_argument null_pointer out_of_range invalid_state invalid_config invalid_ir : Status
  out_of_memory capacity_exceeded budget_exceeded : Status
  not_found already_exists not_initialized already_initialized shutdown : Status
  io_error journal_corrupted journal_full serialization_error : Status
  file_not_found permission_denied : Status
  timeout contention epoch_stalled : Status
  plugin_load_failed plugin_version_mismatch plugin_init_failed plugin_not_found : Status
  internal_error unimplemented : Status

abbrev pub is_ok : Status → Bool
is_ok k_ok = true
is_ok _ = false

abbrev pub is_error : Status → Bool
is_error k_ok = false
is_error _ = true

-- Every value of the enumeration has a name; `"kUnknown"` is for others.
abbrev pub status_name : Status → String
status_name k_ok = "kOk"
status_name invalid_argument = "kInvalidArgument"
status_name null_pointer = "kNullPointer"
status_name out_of_range = "kOutOfRange"
status_name invalid_state = "kInvalidState"
status_name invalid_config = "kInvalidConfig"
status_name invalid_ir = "kInvalidIr"
status_name out_of_memory = "kOutOfMemory"
status_name capacity_exceeded = "kCapacityExceeded"
status_name budget_exceeded = "kBudgetExceeded"
status_name not_found = "kNotFound"
status_name already_exists = "kAlreadyExists"
status_name not_initialized = "kNotInitialized"
status_name already_initialized = "kAlreadyInitialized"
status_name shutdown = "kShutdown"
status_name io_error = "kIoError"
status_name journal_corrupted = "kJournalCorrupted"
status_name journal_full = "kJournalFull"
status_name serialization_error = "kSerializationError"
status_name file_not_found = "kFileNotFound"
status_name permission_denied = "kPermissionDenied"
status_name timeout = "kTimeout"
status_name contention = "kContention"
status_name epoch_stalled = "kEpochStalled"
status_name plugin_load_failed = "kPluginLoadFailed"
status_name plugin_version_mismatch = "kPluginVersionMismatch"
status_name plugin_init_failed = "kPluginInitFailed"
status_name plugin_not_found = "kPluginNotFound"
status_name internal_error = "kInternalError"
status_name unimplemented = "kUnimplemented"

-- `Result<T>`: a value, or a status that is not `kOk`.
pub data Result {ℓ} (A : Type ℓ) : Type ℓ where
  ok : A → Result A
  err : Status → Result A

infixl 5 ◌>>=◌
abbrev pub ◌>>=◌ {ℓ κ} : {A : Type ℓ} {B : Type κ} → Result A → (A → Result B) → Result B
ok a >>= f = f a
err e >>= f = err e

-- `Result::ok`, `status` and `value_or`.
abbrev pub result_ok {ℓ} : {A : Type ℓ} → Result A → Bool
result_ok (ok a) = true
result_ok (err e) = false

abbrev pub status_of {ℓ} : {A : Type ℓ} → Result A → Status
status_of (ok a) = k_ok
status_of (err e) = e

abbrev pub value_or {ℓ} : {A : Type ℓ} → A → Result A → A
value_or default_value (ok a) = a
value_or default_value (err e) = default_value

-- `UME_RETURN_IF_ERROR`: what returns a status goes on behind one that is no error.
-- `UME_ASSIGN_OR_RETURN` is `◌>>=◌`.
abbrev pub return_if_error : Status → Status → Status
return_if_error s rest = if is_error s then s else rest
