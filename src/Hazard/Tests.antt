-- ===== src/Hazard/Tests.antt =====
-- A domain with two slots, one of which protects the pointer 100.
use ume.Prelude.{refl, true, false, some, List, [], ◌∷◌, arith}
use ume.Hazard.{HazardPointerDomain, Operation, acquires, protects, retires, reclaims, perform_all}
use ume.Hazard.Safety.{Guards, Spares, perform_all-Guards}

abbrev domain : HazardPointerDomain
domain = record {
  slots = record { pointer = 100; active = true } ∷ record { pointer = 0; active = false } ∷ [];
  retired = record { ptr = 200; deleter = 1 } ∷ record { ptr = 100; deleter = 2 } ∷ [];
}

abbrev operations : List Operation
operations = acquires ∷ protects 1 300 ∷ retires 100 (some 3) ∷ reclaims ∷ []

perform_all-Guards_example :
    Spares 100 (perform_all operations domain).0 × Guards 0 100 (perform_all operations domain).1
perform_all-Guards_example =
    perform_all-Guards 0 100 operations domain (omega arith) (tt, (omega arith, (tt, (tt, tt))))
      refl
