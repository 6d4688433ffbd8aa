-- ===== src/Config.antt =====
-- core/include/ume/config.h and core/src/config.cpp: the settings, their defaults and their
-- validation. Single-precision numbers are a parameter.
pub mod Load
pub mod Validity
mod Tests
use Prim.Native.String.{String}
use ume.Prelude.{
  ℕ, zero, suc, ◌*◌, ◌/◌, ◌%◌, Bool, true, false, not, ◌||◌, ltb, ◌==◌, if◌then◌else◌,
}
use ume.Status.{Status, k_ok, invalid_config}

-- `float`: the comparison, and the value of a small integer.
pub record Floats : Type 1 where
  pub Float : Type 0
  pub less : Float → Float → Bool
  pub of_int : ℕ → Float

pub record JournalConfig : Type 0 where
  pub segment_size_bytes : ℕ
  pub hot_retention_seconds : ℕ
  pub warm_retention_seconds : ℕ
  pub compaction_enabled : Bool

pub record ObjectStoreConfig : Type 0 where
  pub shard_count : ℕ
  pub small_alloc_threshold_bytes : ℕ
  pub tombstone_reap_interval_seconds : ℕ

pub record GraphConfig : Type 0 where
  pub rcu_epoch_timeout_ms : ℕ

pub record ProbeConfig : Type 0 where
  pub sample_rate_hz : ℕ
  pub cuda_enabled : Bool
  pub nvml_enabled : Bool

pub record AdapterConfig : Type 0 where
  pub python_gil_max_hold_us : ℕ
  pub python_batch_hz : ℕ

pub record DashboardConfig : Type 0 where
  pub websocket_port : ℕ
  pub rest_port : ℕ
  pub max_clients : ℕ

pub record PredictionConfig : Type 0 where
  pub cycle_interval_ms : ℕ
  pub models_enabled : String

pub record AdvisorConfig : Type 0 where
  pub cycle_interval_ms : ℕ
  pub enabled : Bool

pub record EngineConfig (fl : Floats) : Type 0 where
  pub log_level : String
  pub overhead_budget_cpu_percent : fl.Float
  pub overhead_budget_memory_mb : ℕ

pub record Config (fl : Floats) : Type 0 where
  pub engine : EngineConfig fl
  pub journal : JournalConfig
  pub object_store : ObjectStoreConfig
  pub graph : GraphConfig
  pub probes : ProbeConfig
  pub adapters : AdapterConfig
  pub dashboard : DashboardConfig
  pub prediction : PredictionConfig
  pub advisor : AdvisorConfig

-- `std::has_single_bit` on `w` bits.
unfoldable pub has_single_bit : ℕ → ℕ → Bool
has_single_bit zero n = false
has_single_bit (suc w) n =
    let rest = has_single_bit w (n / 2) in if n % 2 == 1 then n == 1 else rest

module _ (fl : Floats) where
  abbrev pub default_config : Config fl
  default_config = record {
    engine = record {
      log_level = "info";
      overhead_budget_cpu_percent = fl.of_int 2;
      overhead_budget_memory_mb = 250;
    };
    journal = record {
      segment_size_bytes = 64 * 1024 * 1024;
      hot_retention_seconds = 60;
      warm_retention_seconds = 3600;
      compaction_enabled = true;
    };
    object_store = record {
      shard_count = 256;
      small_alloc_threshold_bytes = 4096;
      tombstone_reap_interval_seconds = 5;
    };
    graph = record { rcu_epoch_timeout_ms = 100 };
    probes = record { sample_rate_hz = 10; cuda_enabled = false; nvml_enabled = false };
    adapters = record { python_gil_max_hold_us = 200; python_batch_hz = 5 };
    dashboard = record { websocket_port = 9100; rest_port = 9101; max_clients = 8 };
    prediction = record { cycle_interval_ms = 100; models_enabled = "ewma,lru" };
    advisor = record { cycle_interval_ms = 100; enabled = true };
  }

  unfoldable pub default_test_config : Config fl
  default_test_config =
      let c = default_config in
      record c {
        engine = record {
          log_level = "debug";
          overhead_budget_cpu_percent = fl.of_int 50;
          overhead_budget_memory_mb = 100;
        };
        journal = record (c.journal) {
          segment_size_bytes = 1 * 1024 * 1024;
          hot_retention_seconds = 10;
          compaction_enabled = false;
        };
        object_store = record (c.object_store) { shard_count = 16 };
        graph = record { rcu_epoch_timeout_ms = 50 };
        probes = record { sample_rate_hz = 1; cuda_enabled = false; nvml_enabled = false };
        dashboard = record (c.dashboard) { websocket_port = 0; rest_port = 0 };
        prediction = record (c.prediction) { cycle_interval_ms = 1000 };
        advisor = record (c.advisor) { enabled = false };
      }

  unfoldable pub validate : Config fl → Status
  validate c =
      let cpu = c.engine.overhead_budget_cpu_percent in
      let shards = c.object_store.shard_count in
      if fl.less cpu (fl.of_int 0) || fl.less (fl.of_int 100) cpu
      then invalid_config
      else if ltb c.engine.overhead_budget_memory_mb 10
      then invalid_config
      else if ltb c.journal.segment_size_bytes (1024 * 1024)
      then invalid_config
      else if shards == 0 || not (has_single_bit 32 shards)
      then invalid_config
      else if ltb c.probes.sample_rate_hz 1 || ltb 1000 c.probes.sample_rate_hz
      then invalid_config
      else k_ok
