-- ===== src/Config/Validity.antt =====
-- What `validate` and `load_from_file` accept.
use ume.Prelude.{
  ℕ, zero, suc, ◌*◌, ◌/◌, ◌%◌, ◌^◌, ◌≤◌, ◌<◌, ◌≡◌, refl, ap, subst, ◌∙◌, ◌↔◌, ◌⊎◌, inl, inr, Bool,
  true, false, not, ◌||◌, Option, none, some, arith, dec_lt, ltb, ◌==◌, if◌then◌else◌, Bool-cases,
}
use native.Mathlib.Nat.{one-le-pow, pow-suc, pow-le-pow_right}
use Prim.Native.String.{String}
use ume.Status.{Status, k_ok, invalid_config, file_not_found, Result, ok, err, is_error}
use ume.Config.{Floats, Config, has_single_bit, validate, default_config}
use ume.Config.Load.{
  Toml, Parsed, parsed, syntax_error, exception, load_from_file, validated, of_parsed,
  read_sections,
}

single_bit-power : (w n : ℕ) → has_single_bit w n ≡ true → (k : ℕ) × (n ≡ 2 ^ k)
unfolding has_single_bit
single_bit-power zero n h = ground arith
single_bit-power (suc w) n h = elim (Bool-cases (n % 2 == 1)) [
  | inl odd ↦ (0, ground arith)
  | inr even ↦
      let (k, e) = single_bit-power w (n / 2) (ground arith) in
      let whole : n % 2 ≡ 0 = ground arith in (suc k, double k e whole)
]
  where
    double : (k : ℕ) → n / 2 ≡ 2 ^ k → n % 2 ≡ 0 → n ≡ 2 ^ suc k
    double k e whole = omega (arith, pow-suc 2 k)

power-single_bit : (w k : ℕ) → k < w → has_single_bit w (2 ^ k) ≡ true
unfolding has_single_bit
power-single_bit zero k h = ground arith
power-single_bit (suc w) zero h = refl
power-single_bit (suc w) (suc k) h =
    let double : 2 ^ suc k ≡ 2 * 2 ^ k = pow-suc 2 k ∙ omega arith in
    let half : 2 ^ suc k / 2 ≡ 2 ^ k = omega arith in
    let even : (2 ^ suc k % 2 == 1) ≡ false = ground arith in
    simp (even, half) (power-single_bit w k (omega arith))

-- Five guards that each answer `kInvalidConfig`.
abbrev guards : Bool → Bool → Bool → Bool → Bool → Status
guards a b c d e =
    if a
    then invalid_config
    else if b
    then invalid_config
    else if c
    then invalid_config
    else if d
    then invalid_config
    else if e
    then invalid_config
    else k_ok

guards_pass :
    (a b c d e : Bool)
    → (guards a b c d e ≡ k_ok)
      ↔ ((a ≡ false) × (b ≡ false) × (c ≡ false) × (d ≡ false) × (e ≡ false))
guards_pass true b c d e = ground arith
guards_pass false true c d e = ground arith
guards_pass false false true d e = ground arith
guards_pass false false false true e = ground arith
guards_pass false false false false true = ground arith
guards_pass false false false false false = ground arith

guards_cases : (a b c d e : Bool) → (guards a b c d e ≡ k_ok) ⊎ (guards a b c d e ≡ invalid_config)
guards_cases true b c d e = inr refl
guards_cases false true c d e = inr refl
guards_cases false false true d e = inr refl
guards_cases false false false true e = inr refl
guards_cases false false false false true = inr refl
guards_cases false false false false false = inl refl

module _ (fl : Floats) where
  -- The settings that the engine starts with.
  pub record IsConfig (c : Config fl) : Type 0 where
    pub cpu_low : fl.less c.engine.overhead_budget_cpu_percent (fl.of_int 0) ≡ false
    pub cpu_high : fl.less (fl.of_int 100) c.engine.overhead_budget_cpu_percent ≡ false
    pub memory : 10 ≤ c.engine.overhead_budget_memory_mb
    pub segment : 2 ^ 20 ≤ c.journal.segment_size_bytes
    pub shards : (k : ℕ) × (c.object_store.shard_count ≡ 2 ^ k)
    pub rate : (1 ≤ c.probes.sample_rate_hz) × (c.probes.sample_rate_hz ≤ 1000)

  -- The five tests of `validate`.
  abbrev cpu_fails : Config fl → Bool
  cpu_fails c =
      fl.less c.engine.overhead_budget_cpu_percent (fl.of_int 0)
      || fl.less (fl.of_int 100) c.engine.overhead_budget_cpu_percent

  abbrev memory_fails : Config fl → Bool
  memory_fails c = ltb c.engine.overhead_budget_memory_mb 10

  abbrev segment_fails : Config fl → Bool
  segment_fails c = ltb c.journal.segment_size_bytes (1024 * 1024)

  abbrev shards_fail : Config fl → Bool
  shards_fail c =
      c.object_store.shard_count == 0 || not (has_single_bit 32 c.object_store.shard_count)

  abbrev rate_fails : Config fl → Bool
  rate_fails c = ltb c.probes.sample_rate_hz 1 || ltb 1000 c.probes.sample_rate_hz

  validate_sound : (c : Config fl) → validate fl c ≡ k_ok → IsConfig c
  unfolding validate
  validate_sound c h =
      let (cpu, memory, segment, shards, rate) =
        (guards_pass (cpu_fails c) (memory_fails c) (segment_fails c) (shards_fail c)
            (rate_fails c)).0
          h in
      record {
        cpu_low = ground arith;
        cpu_high = ground arith;
        memory = ground arith;
        segment = ground arith;
        shards = single_bit-power 32 c.object_store.shard_count (ground arith);
        rate = ground arith;
      }

  validate_complete :
      (c : Config fl) → c.object_store.shard_count < 2 ^ 32 → IsConfig c → validate fl c ≡ k_ok
  unfolding validate
  validate_complete c small h =
      let (k, e) = h.shards in
      let bit : has_single_bit 32 c.object_store.shard_count ≡ true =
        ap (has_single_bit 32) e ∙ power-single_bit 32 k (below k (omega arith)) in
      (guards_pass (cpu_fails c) (memory_fails c) (segment_fails c) (shards_fail c)
          (rate_fails c)).1
        (
          ground (arith, h.cpu_low, h.cpu_high),
          ground (arith, h.memory),
          ground (arith, h.segment),
          ground (arith, bit, one-le-pow k 2),
          ground (arith, h.rate),
        )
    where
      below : (k : ℕ) → 2 ^ k < 2 ^ 32 → k < 32
      below k lt = elim (dec_lt k 32) [
        | yes less ↦ less
        | no ge ↦
            omega (arith, pow-le-pow_right {n = 2} (omega arith) {i = 32} {j = k} (omega arith))
      ]

  -- `validate` answers `kOk` exactly on settings in range: a share of the processor that is neither
  -- below 0 nor above 100, a budget of 10 MB or more, segments of 1 MB or more, a number of shards
  -- that is a power of two, and a rate of samples from 1 to 1000. The number of shards is of 32
  -- bits.
  pub validate_iff :
      (c : Config fl) → c.object_store.shard_count < 2 ^ 32 → (validate fl c ≡ k_ok) ↔ IsConfig c
  validate_iff c small = (validate_sound c, validate_complete c small)

  validate_cases : (c : Config fl) → (validate fl c ≡ k_ok) ⊎ (validate fl c ≡ invalid_config)
  unfolding validate
  validate_cases c =
      guards_cases (cpu_fails c) (memory_fails c) (segment_fails c) (shards_fail c) (rate_fails c)

  abbrev from_ok : Config fl → Result (Config fl) → Config fl
  from_ok d (ok c) = c
  from_ok d (err e) = d

  validated-IsConfig :
      (toml : Toml fl) (o : Option (Config fl)) (c : Config fl)
      → validated fl toml o ≡ ok c
      → IsConfig c
  validated-IsConfig toml none c h = ground arith
  validated-IsConfig toml (some d) c h = elim (validate_cases d) [
    | inl fine ↦
        let same : ok d ≡ ok c = subst (λ v. (if is_error v then err v else ok d) ≡ ok c) fine h in
        subst IsConfig (ap (from_ok d) same) (validate_sound d fine)
    | inr bad ↦
        let no_way : err invalid_config ≡ ok c =
          subst (λ v. (if is_error v then err v else ok d) ≡ ok c) bad h in
        ground arith
  ]

  -- Settings that `load_from_file` returns are in range, whatever the file holds and whatever the
  -- TOML library answers.
  pub load_from_file-IsConfig :
      (toml : Toml fl) (path : String) (c : Config fl)
      → load_from_file fl toml path ≡ ok c
      → IsConfig c
  unfolding load_from_file
  load_from_file-IsConfig toml path c h = elim (Bool-cases (toml.good path)) [
    | inl there ↦ of_parsed-IsConfig (toml.parse path) (
        subst (λ b. (if b then of_parsed fl toml (toml.parse path) else err file_not_found) ≡ ok c)
          there h)
    | inr missing ↦
        let no_way : err file_not_found ≡ ok c =
          subst
            (λ b. (if b then of_parsed fl toml (toml.parse path) else err file_not_found) ≡ ok c)
            missing h in
        ground arith
  ]
    where
      of_parsed-IsConfig : (p : Parsed toml.Value) → of_parsed fl toml p ≡ ok c → IsConfig c
      of_parsed-IsConfig (parsed root) g =
          validated-IsConfig toml (read_sections fl toml root (default_config fl)) c g
      of_parsed-IsConfig syntax_error g = ground arith
      of_parsed-IsConfig exception g = ground arith
