-- ===== src/Journal/Paths/Tests.antt =====
-- Paths with seven digits.
use ume.Prelude.{◌≡◌, refl, [], ◌∷◌}
use ume.Journal.Paths.{build_segment_path, sort_paths}

-- The segment 1000000 comes right behind 100000.
sorted_out_of_order : sort_paths (100000 ∷ 100001 ∷ 1000000 ∷ []) ≡ 100000 ∷ 1000000 ∷ 100001 ∷ []
unfolding sort_paths build_segment_path
sorted_out_of_order = refl
