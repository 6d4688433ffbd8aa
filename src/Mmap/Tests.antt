-- ===== src/Mmap/Tests.antt =====
-- Three objects: an opening that fails behind the descriptor, moves of both kinds, and an
-- assignment to an object that is open.
use ume.Prelude.{◌≡◌, refl, List, [], ◌∷◌, arith}
use ume.Mmap.{
  map_fails, succeed, Program, Operation, constructs, opens, closes, move_constructs, move_assigns,
  open_file, close, move_assign, perform_all,
}
use ume.Mmap.Resources.{IsBalanced, perform_all-IsBalanced}

abbrev start : Program
start = record { files = []; log = record { opened = []; closed = []; mapped = []; unmapped = [] } }

abbrev operations : List Operation
operations =
    constructs
    ∷ opens 0 (succeed 3 4096) 100
    ∷ move_constructs 0
    ∷ opens 0 (map_fails 4) 100
    ∷ opens 0 (succeed 4 8192) 200
    ∷ move_assigns 1 0
    ∷ closes 0
    ∷ []

still_open : (perform_all operations start).log.closed ≡ 3 ∷ 4 ∷ []
unfolding open_file close move_assign
still_open = refl

perform_all-IsBalanced_example : IsBalanced (perform_all operations start)
perform_all-IsBalanced_example =
    perform_all-IsBalanced operations start
      (record { descriptors = λ x. omega arith; mappings = λ x. omega arith; are_files = tt })
