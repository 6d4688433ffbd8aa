-- ===== src/Config/Load.antt =====
-- `Config::load_from_file` of core/src/config.cpp, over a TOML library that is a parameter. A
-- lookup that throws is `none`.
use Prim.Native.String.{String}
use ume.Prelude.{ℕ, ◌*◌, ◌/◌, ◌%◌, ◌^◌, Bool, Option, none, some, if◌then◌else◌}
use ume.Status.{file_not_found, invalid_config, io_error, Result, ok, err, is_error}
use ume.Config.{
  Floats, Config, EngineConfig, JournalConfig, ObjectStoreConfig, GraphConfig, ProbeConfig,
  AdapterConfig, DashboardConfig, PredictionConfig, AdvisorConfig, default_config, validate,
}

infixl 5 ◌>>=◌
abbrev ◌>>=◌ : {A B : Type 0} → Option A → (A → Option B) → Option B
none >>= f = none
some a >>= f = f a

-- What `toml::parse` ends with.
pub data Parsed (V : Type 0) : Type 0 where
  parsed : (root : V) → Parsed V
  syntax_error : Parsed V
  exception : Parsed V

-- The file and the TOML library. An integer of 64 bits is given by its pattern of bits;
-- `find_or_float` is `find_or<double>` between the two conversions.
pub record Toml (fl : Floats) : Type 1 where
  pub Value : Type 0
  pub good : String → Bool
  pub parse : String → Parsed Value
  pub has : Value → String → Bool
  pub find : Value → String → Option Value
  pub find_or_int64 : Value → String → ℕ → ℕ
  pub find_or_string : Value → String → String → String
  pub find_or_bool : Value → String → Bool → Bool
  pub find_or_float : Value → String → fl.Float → fl.Float

module _ (fl : Floats) (toml : Toml fl) where
  -- `get_int` for an unsigned type of `width` bits.
  abbrev pub get_int : ℕ → toml.Value → String → ℕ → ℕ
  get_int width v key default_val =
      if toml.has v key then toml.find_or_int64 v key default_val % 2 ^ width else default_val

  abbrev pub get_str : toml.Value → String → String → String
  get_str v key default_val =
      if toml.has v key then toml.find_or_string v key default_val else default_val

  abbrev pub get_bool : toml.Value → String → Bool → Bool
  get_bool v key default_val =
      if toml.has v key then toml.find_or_bool v key default_val else default_val

  abbrev pub get_float : toml.Value → String → fl.Float → fl.Float
  get_float v key default_val =
      if toml.has v key then toml.find_or_float v key default_val else default_val

  abbrev load_engine : toml.Value → EngineConfig fl → EngineConfig fl
  load_engine sec c = record {
    log_level = get_str sec "log_level" c.log_level;
    overhead_budget_cpu_percent =
        get_float sec "overhead_budget_cpu_percent" c.overhead_budget_cpu_percent;
    overhead_budget_memory_mb =
        get_int 32 sec "overhead_budget_memory_mb" c.overhead_budget_memory_mb;
  }

  abbrev load_journal : toml.Value → JournalConfig → JournalConfig
  load_journal sec c =
      let default_mb = c.segment_size_bytes / (1024 * 1024) in
      record {
        segment_size_bytes = get_int 64 sec "segment_size_mb" default_mb * 1024 * 1024 % 2 ^ 64;
        hot_retention_seconds = get_int 32 sec "hot_retention_seconds" c.hot_retention_seconds;
        warm_retention_seconds = get_int 32 sec "warm_retention_seconds" c.warm_retention_seconds;
        compaction_enabled = get_bool sec "compaction_enabled" c.compaction_enabled;
      }

  abbrev load_object_store : toml.Value → ObjectStoreConfig → ObjectStoreConfig
  load_object_store sec c = record {
    shard_count = get_int 32 sec "shard_count" c.shard_count;
    small_alloc_threshold_bytes =
        get_int 64 sec "small_alloc_threshold_bytes" c.small_alloc_threshold_bytes;
    tombstone_reap_interval_seconds =
        get_int 32 sec "tombstone_reap_interval_seconds" c.tombstone_reap_interval_seconds;
  }

  abbrev load_graph : toml.Value → GraphConfig → GraphConfig
  load_graph sec c = record {
    rcu_epoch_timeout_ms = get_int 32 sec "rcu_epoch_timeout_ms" c.rcu_epoch_timeout_ms;
  }

  abbrev load_probes : toml.Value → ProbeConfig → ProbeConfig
  load_probes sec c = record {
    sample_rate_hz = get_int 32 sec "sample_rate_hz" c.sample_rate_hz;
    cuda_enabled = get_bool sec "cuda_enabled" c.cuda_enabled;
    nvml_enabled = get_bool sec "nvml_enabled" c.nvml_enabled;
  }

  abbrev load_adapters : toml.Value → AdapterConfig → AdapterConfig
  load_adapters sec c = record {
    python_gil_max_hold_us = get_int 32 sec "python_gil_max_hold_us" c.python_gil_max_hold_us;
    python_batch_hz = get_int 32 sec "python_batch_hz" c.python_batch_hz;
  }

  abbrev load_dashboard : toml.Value → DashboardConfig → DashboardConfig
  load_dashboard sec c = record {
    websocket_port = get_int 16 sec "websocket_port" c.websocket_port;
    rest_port = get_int 16 sec "rest_port" c.rest_port;
    max_clients = get_int 16 sec "max_clients" c.max_clients;
  }

  abbrev load_prediction : toml.Value → PredictionConfig → PredictionConfig
  load_prediction sec c = record {
    cycle_interval_ms = get_int 32 sec "cycle_interval_ms" c.cycle_interval_ms;
    models_enabled = get_str sec "models_enabled" c.models_enabled;
  }

  abbrev load_advisor : toml.Value → AdvisorConfig → AdvisorConfig
  load_advisor sec c = record {
    cycle_interval_ms = get_int 32 sec "cycle_interval_ms" c.cycle_interval_ms;
    enabled = get_bool sec "enabled" c.enabled;
  }

  -- A section that is there is found and read; one that is not leaves its settings.
  abbrev pub read_section : {C : Type 0} → toml.Value → String → (toml.Value → C → C) → C → Option C
  read_section data_root key load c =
      if toml.has data_root key
      then (toml.find data_root key >>= λ sec. some (load sec c))
      else some c

  abbrev pub read_sections : toml.Value → Config fl → Option (Config fl)
  read_sections root c = do
    engine ← read_section root "engine" load_engine c.engine
    journal ← read_section root "journal" load_journal c.journal
    object_store ← read_section root "object_store" load_object_store c.object_store
    graph ← read_section root "graph" load_graph c.graph
    probes ← read_section root "probes" load_probes c.probes
    adapters ← read_section root "adapters" load_adapters c.adapters
    dashboard ← read_section root "dashboard" load_dashboard c.dashboard
    prediction ← read_section root "prediction" load_prediction c.prediction
    advisor ← read_section root "advisor" load_advisor c.advisor
    some (record {
      engine = engine;
      journal = journal;
      object_store = object_store;
      graph = graph;
      probes = probes;
      adapters = adapters;
      dashboard = dashboard;
      prediction = prediction;
      advisor = advisor;
    })

  abbrev pub validated : Option (Config fl) → Result (Config fl)
  validated none = err io_error
  validated (some c) =
      let validation = validate fl c in if is_error validation then err validation else ok c

  abbrev pub of_parsed : Parsed toml.Value → Result (Config fl)
  of_parsed (parsed root) = validated (read_sections root (default_config fl))
  of_parsed syntax_error = err invalid_config
  of_parsed exception = err io_error

  unfoldable pub load_from_file : String → Result (Config fl)
  load_from_file path = if toml.good path then of_parsed (toml.parse path) else err file_not_found
