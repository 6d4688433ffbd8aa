-- ===== src/Types/EventType.antt =====
-- `EventType` of core/include/ume/event/event_types.h.
use Prim.Native.String.{String}
use ume.Prelude.{ℕ, Option, none, some, List, [], ◌∷◌, lookup}

abbrev pub unknown : ℕ
unknown = 0x0000

abbrev pub object_created : ℕ
object_created = 0x0101

abbrev pub object_destroyed : ℕ
object_destroyed = 0x0102

abbrev pub object_resized : ℕ
object_resized = 0x0103

abbrev pub object_bind_tier : ℕ
object_bind_tier = 0x0104

abbrev pub object_unbind_tier : ℕ
object_unbind_tier = 0x0105

abbrev pub migration_requested : ℕ
migration_requested = 0x0201

abbrev pub migration_started : ℕ
migration_started = 0x0202

abbrev pub migration_completed : ℕ
migration_completed = 0x0203

abbrev pub migration_failed : ℕ
migration_failed = 0x0204

abbrev pub migration_cancelled : ℕ
migration_cancelled = 0x0205

abbrev pub access_sample : ℕ
access_sample = 0x0301

abbrev pub page_fault : ℕ
page_fault = 0x0302

abbrev pub working_set_updated : ℕ
working_set_updated = 0x0303

abbrev pub hotness_changed : ℕ
hotness_changed = 0x0304

abbrev pub tier_registered : ℕ
tier_registered = 0x0401

abbrev pub tier_unregistered : ℕ
tier_unregistered = 0x0402

abbrev pub tier_pressure_high : ℕ
tier_pressure_high = 0x0403

abbrev pub tier_pressure_normal : ℕ
tier_pressure_normal = 0x0404

abbrev pub bandwidth_throttled : ℕ
bandwidth_throttled = 0x0405

abbrev pub prediction_generated : ℕ
prediction_generated = 0x0501

abbrev pub policy_decision_made : ℕ
policy_decision_made = 0x0502

abbrev pub cost_model_updated : ℕ
cost_model_updated = 0x0503

abbrev pub plugin_custom : ℕ
plugin_custom = 0x0601

-- The cases of the switch of `type_name`.
abbrev pub type_names : List (ℕ × String)
type_names =
    (object_created, "ObjectCreated")
    ∷ (object_destroyed, "ObjectDestroyed")
    ∷ (object_resized, "ObjectResized")
    ∷ (object_bind_tier, "ObjectBindTier")
    ∷ (object_unbind_tier, "ObjectUnbindTier")
    ∷ (migration_requested, "MigrationRequested")
    ∷ (migration_started, "MigrationStarted")
    ∷ (migration_completed, "MigrationCompleted")
    ∷ (migration_failed, "MigrationFailed")
    ∷ (migration_cancelled, "MigrationCancelled")
    ∷ (access_sample, "AccessSample")
    ∷ (page_fault, "PageFault")
    ∷ (working_set_updated, "WorkingSetUpdated")
    ∷ (hotness_changed, "HotnessChanged")
    ∷ (tier_registered, "TierRegistered")
    ∷ (tier_unregistered, "TierUnregistered")
    ∷ (tier_pressure_high, "TierPressureHigh")
    ∷ (tier_pressure_normal, "TierPressureNormal")
    ∷ (bandwidth_throttled, "BandwidthThrottled")
    ∷ (prediction_generated, "PredictionGenerated")
    ∷ (policy_decision_made, "PolicyDecisionMade")
    ∷ (cost_model_updated, "CostModelUpdated")
    ∷ (plugin_custom, "PluginCustom")
    ∷ []

abbrev pub type_name_or_unknown : Option String → String
type_name_or_unknown none = "Unknown"
type_name_or_unknown (some name) = name

unfoldable pub type_name : ℕ → String
type_name n = type_name_or_unknown (lookup n type_names)
