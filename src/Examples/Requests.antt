-- ===== src/Examples/Requests.antt =====
-- The theorems on sequences of requests, each on a concrete input.
use thing_directory.Common.{◌≡◌, refl, []}
use thing_directory.Common.Order.{text_order}
use thing_directory.Common.SortedMap
use thing_directory.Wot.Validation.{validate_against_schemas}
use thing_directory.Errors.{ok}
use thing_directory.Json.Print.{print, marshal, is_printable}
use thing_directory.Json.Parse.{unmarshal_map, absorb}
use thing_directory.Catalog.Registration.{thing_registration, compute_expiry}
use thing_directory.Catalog.Storage
use thing_directory.Catalog.Controller
use thing_directory.Catalog.Controller.{stamp, validate, replace}
use thing_directory.Catalog.Http.{put, plain_response}
use thing_directory.Examples.{test_lib, test_db, new_lamp, lamp_controller, request, count, ticks}

pub lamp_is_put :
    (put test_lib test_db [] (request "urn:lamp" new_lamp) lamp_controller).0
    ≡ ok (plain_response 204 [])
unfolding put Controller.update SortedMap.lookup Storage.get SortedMap.insert unmarshal_map print
    validate validate_against_schemas replace thing_registration absorb Storage.update marshal
    is_printable stamp count ticks compute_expiry
lamp_is_put = refl
