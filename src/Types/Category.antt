-- ===== src/Types/Category.antt =====
-- `EventCategory` of core/include/ume/event/event_types.h.
use Prim.Native.String.{String}
use ume.Prelude.{ℕ, Option, none, some, List, [], ◌∷◌, lookup}

abbrev pub unknown : ℕ
unknown = 0

abbrev pub memory_object : ℕ
memory_object = 1

abbrev pub tier_migration : ℕ
tier_migration = 2

abbrev pub access_pattern : ℕ
access_pattern = 3

abbrev pub system_topology : ℕ
system_topology = 4

abbrev pub prediction : ℕ
prediction = 5

abbrev pub advisor : ℕ
advisor = 6

abbrev pub plugin : ℕ
plugin = 7

-- The cases of the switch of `category_name`.
abbrev pub category_names : List (ℕ × String)
category_names =
    (memory_object, "MemoryObject")
    ∷ (tier_migration, "TierMigration")
    ∷ (access_pattern, "AccessPattern")
    ∷ (system_topology, "SystemTopology")
    ∷ (prediction, "Prediction")
    ∷ (advisor, "Advisor")
    ∷ (plugin, "Plugin")
    ∷ []

abbrev pub category_name_or_unknown : Option String → String
category_name_or_unknown none = "Unknown"
category_name_or_unknown (some name) = name

unfoldable pub category_name : ℕ → String
category_name n = category_name_or_unknown (lookup n category_names)
