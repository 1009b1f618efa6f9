-- ===== src/Examples/Calls.antt =====
-- The theorems on the calls of the catalog's controller, each on a concrete input.
use thing_directory.Common.{◌≡◌, false, List, [], ◌∷◌}
use thing_directory.Common.Order.{text_order}
use thing_directory.Errors.{is_ok}
use thing_directory.Catalog.Controller.{add_with_id, update, patch, delete}
use thing_directory.Catalog.Controller.Effects.{Idle}
use thing_directory.Catalog.Controller.Failures.{fails-Idle}
use thing_directory.Catalog.Controller.Specification.{
  Call, adding, updating, patching, removing, Runs,
}
use thing_directory.Catalog.Controller.Refinement.{perform_all}
use thing_directory.Common.{List, refl}
use thing_directory.Common.SortedMap
use thing_directory.Json.{null, object}
use thing_directory.Catalog.Controller.Mirror.{Mirrors}
use thing_directory.Catalog.Controller.Mirror.Following.{perform_all-Mirrors}
use thing_directory.Examples.Runs.{lamp-IsCatalog}
use thing_directory.Examples.{lamp_controller, test_lib, test_db, new_lamp, no_controller}
use thing_directory.Examples.Witnesses.{sure, new_lamp-IsMap}

-- A lamp is added, updated, and removed twice.
abbrev calls : List Call
calls =
    adding new_lamp 5 "1"
    ∷ updating "urn:lamp" new_lamp 6
    ∷ patching "urn:lamp" (object new_lamp) 6
    ∷ removing "urn:lamp"
    ∷ removing "urn:lamp"
    ∷ []

fails-Idle_example :
    (is_ok (add_with_id test_lib test_db [] "" new_lamp 5 no_controller).0 ≡ false
      → Idle test_lib test_db [] "" no_controller
          (add_with_id test_lib test_db [] "" new_lamp 5 no_controller).1)
    × (is_ok (update test_lib test_db [] "" new_lamp 5 no_controller).0 ≡ false
        → Idle test_lib test_db [] "" no_controller
            (update test_lib test_db [] "" new_lamp 5 no_controller).1)
    × (is_ok (patch test_lib test_db [] "" null 5 no_controller).0 ≡ false
        → Idle test_lib test_db [] "" no_controller
            (patch test_lib test_db [] "" null 5 no_controller).1)
    × (is_ok (delete test_lib test_db [] "" no_controller).0 ≡ false
        → Idle test_lib test_db [] "" no_controller (delete test_lib test_db [] "" no_controller).1)
fails-Idle_example = fails-Idle test_lib test_db [] "" no_controller new_lamp null 5

abbrev mirrored_calls : List Call
mirrored_calls =
    adding new_lamp 5 "1"
    ∷ updating "urn:lamp" new_lamp 6
    ∷ removing "urn:lamp"
    ∷ removing "urn:lamp"
    ∷ []

perform_all-Mirrors_example :
    Mirrors test_lib test_db sure [] lamp_controller
      (perform_all test_lib [] test_db sure mirrored_calls lamp_controller)
unfolding SortedMap.lookup
perform_all-Mirrors_example =
    perform_all-Mirrors test_lib test_db sure [] mirrored_calls lamp_controller lamp-IsCatalog
      (new_lamp-IsMap, ((new_lamp-IsMap, refl), (tt, (tt, tt))))
