-- ===== src/Config/Tests.antt =====
-- The theorems on the settings for tests, and on a file whose numbers are too wide.
use ume.Prelude.{ℕ, ◌+◌, ◌*◌, ◌^◌, ◌≡◌, refl, ◌↔◌, true, some, arith, ltb}
use ume.Status.{k_ok, invalid_config, ok}
use ume.Config.{Floats, Config, has_single_bit, validate, default_config, default_test_config}
use ume.Config.Load.{Toml, parsed, load_from_file}
use ume.Config.Validity.{IsConfig, validate_iff, load_from_file-IsConfig}

-- Whole numbers in the place of floats.
abbrev whole : Floats
whole = record { Float = ℕ; less = ltb; of_int = λ n. n }

validate_iff_example :
    (validate whole (default_test_config whole) ≡ k_ok) ↔ IsConfig whole (default_test_config whole)
unfolding default_test_config
validate_iff_example = validate_iff whole (default_test_config whole) (omega arith)

test_settings_pass : validate whole (default_test_config whole) ≡ k_ok
unfolding validate default_test_config has_single_bit
test_settings_pass = refl

abbrev odd_shards : Config whole
odd_shards =
    let c = default_config whole in
    record c { object_store = record (c.object_store) { shard_count = 24 } }

odd_shards_fail : validate whole odd_shards ≡ invalid_config
unfolding validate has_single_bit
odd_shards_fail = refl

-- A file that has every section and every setting, with each integer `2 ^ 32` above the default.
abbrev wide_file : Toml whole
wide_file = record {
  Value = Unit {0};
  good = λ path. true;
  parse = λ path. parsed tt;
  has = λ v key. true;
  find = λ v key. some tt;
  find_or_int64 = λ v key d. 2 ^ 32 + d;
  find_or_string = λ v key d. d;
  find_or_bool = λ v key d. d;
  find_or_float = λ v key d. d;
}

abbrev wide_config : Config whole
wide_config =
    let c = default_config whole in
    record c {
      journal = record (c.journal) { segment_size_bytes = (2 ^ 32 + 64) * 1024 * 1024 };
      object_store = record (c.object_store) { small_alloc_threshold_bytes = 2 ^ 32 + 4096 };
    }

-- The settings of 32 and 16 bits are cut off before they are validated.
wide_file_loads : load_from_file whole wide_file "ume.toml" ≡ ok wide_config
unfolding load_from_file validate has_single_bit
wide_file_loads = refl

load_from_file-IsConfig_example : IsConfig whole wide_config
load_from_file-IsConfig_example =
    load_from_file-IsConfig whole wide_file "ume.toml" wide_config wide_file_loads
