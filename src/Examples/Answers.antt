-- ===== src/Examples/Answers.antt =====
-- The theorems on answers, on reading and on the event queue, each on a concrete input.
use thing_directory.Catalog.Http.{Request}
use thing_directory.Common.{
  ℕ, ◌<◌, is_some, ◌&&◌, eqb, arith, List, ◌≡◌, refl, String, none, some, [], if◌then◌else◌,
}
use thing_directory.Common.Order.{text_order, bytes_order}
use thing_directory.Common.SortedMap
use thing_directory.Errors.{ok}
use thing_directory.Json.{Bytes}
use thing_directory.Json.Print.{print, marshal, is_printable}
use thing_directory.Json.RoundTrip.{plain_fields}
use thing_directory.Json.Maps.{unmarshal_map-print}
use thing_directory.Catalog.Storage
use thing_directory.Catalog.Storage.{not_found_error, conflict_error, LevelDbStorage}
use thing_directory.Catalog.Storage.Crud.{stored}
use thing_directory.Catalog.Http.{post, put, patch}
use thing_directory.Examples.{test_lib, test_db, lamp, new_lamp, switch, lamp_controller, request}
use thing_directory.Examples.Witnesses.{sure, lamp-IsMap}
use thing_directory.Examples.{test_queue_db}
use thing_directory.Catalog.Controller
use thing_directory.Catalog.Controller.Contents.{list_all-contents}
use thing_directory.Catalog.Storage.Pages.{Holds, list-page}
use thing_directory.Catalog.Http.Queries.{get_all}
use thing_directory.Catalog.Filter.{filter_json_path}
use thing_directory.Catalog.Filter.Pages.{page_of, filter_json_path-page}
use thing_directory.Json.RoundTrip.{plain_map, unmarshal-print_json}
use thing_directory.Common.{map}
use thing_directory.Catalog.Http.Streams.{never, get_all-list_all_bytes}
use thing_directory.Catalog.Responses.{payload}
use thing_directory.Json.{object, array, of_items}
use thing_directory.Json.Texts.{Texts}
use thing_directory.Common.{take, drop, ◌∷◌}
use thing_directory.Examples.{test_lib-IsPaging}
use thing_directory.Json.{ThingDescription}
use thing_directory.Examples.Runs.{lamp-IsCatalog}
use thing_directory.Catalog.Storage.Crud.{entries}
use thing_directory.Catalog.Http
use thing_directory.Catalog.Http.Statuses.{get_one-status, delete-status}
use thing_directory.Catalog.Responses.{Response, status_ok, status_not_found, status_no_content}
use thing_directory.LevelDb.Memory.{insert, empty, memory-IsFaultless}
use thing_directory.Json.{Bytes}
use thing_directory.Catalog.Storage.{LevelDbStorage}
use thing_directory.Json.Print.{print, marshal, is_printable}
use thing_directory.Notification.Numbers.{uint64_mod, uint64_to_byte, format_uint, to_hex, digit}
use thing_directory.Notification.Queue.{Event, event_value, LevelDbEventQueue, add_rotate}
use thing_directory.Notification.Queue.Rotation.{add_rotate-entry, leaves, entry}

get_one-status_example :
    (r : Response) × ((Http.get_one test_lib test_db []
        (request "urn:lamp" switch)
        lamp_controller).0
      ≡ ok r)
    × (r.status ≡ (
        if is_some (stored test_db lamp_controller.storage "urn:lamp")
        then status_ok
        else status_not_found))
    × ((Http.get_one test_lib test_db [] (request "urn:lamp" switch) lamp_controller).1.storage
        ≡ lamp_controller.storage)
get_one-status_example =
    get_one-status test_lib test_db sure [] (request "urn:lamp" switch) lamp_controller
      lamp-IsCatalog

delete-status_example :
    (r : Response) × ((Http.delete test_lib test_db []
        (request "urn:lamp" switch)
        lamp_controller).0
      ≡ ok r)
    × (r.status ≡ (
        if is_some (stored test_db lamp_controller.storage "urn:lamp")
        then status_no_content
        else status_not_found))
    × (stored test_db
          (Http.delete test_lib test_db [] (request "urn:lamp" switch) lamp_controller).1.storage
          "urn:lamp"
        ≡ none)
delete-status_example =
    delete-status test_lib test_db sure [] (request "urn:lamp" switch) lamp_controller
      lamp-IsCatalog

-- An entry without text.
abbrev torn_storage : LevelDbStorage test_db
torn_storage = record { db = insert empty "urn:lamp" []; wg = 0 }

abbrev pub event : String → Event
event id = record { id = id; type = "create"; content = new_lamp }

abbrev pub event_bytes : String → Bytes
event_bytes id = print test_lib.rfc (event_value (event id)) []

-- A queue of one event, whose second number has been drawn.
abbrev pub queue : LevelDbEventQueue test_queue_db
queue = record {
  db = insert empty (uint64_to_byte 1) (event_bytes "1");
  latest_id = 2;
  capacity = 1;
}

add_rotate-entry_example :
    (p : LevelDbEventQueue test_queue_db) × (add_rotate test_lib test_queue_db (event "2") queue
      ≡ ok p)
    × (p.latest_id ≡ queue.latest_id)
    × ((i : ℕ)
        → i < uint64_mod
        → entry test_queue_db p i ≡ (
            if leaves test_queue_db queue i && is_some (entry test_queue_db queue i)
            then none
            else if eqb 2 i
            then some (event_bytes "2")
            else entry test_queue_db queue i))
unfolding marshal is_printable format_uint to_hex digit
add_rotate-entry_example =
    add_rotate-entry test_lib test_queue_db (memory-IsFaultless (List ℕ)) queue (omega arith)
      (omega arith) (event "2") 2 (event_bytes "2") refl (omega arith) refl

abbrev tds : List ThingDescription
tds = plain_fields test_lib.rfc lamp ∷ []

lamp-Holds : Holds tds (entries test_db lamp_controller.storage)
unfolding SortedMap.insert
lamp-Holds = (unmarshal_map-print test_lib.rfc lamp lamp-IsMap, tt)

list_all-contents_example :
    Controller.list_all test_lib test_db [] 1 lamp_controller ≡ (ok (tds, 1), lamp_controller)
list_all-contents_example =
    list_all-contents test_lib test_db sure test_lib-IsPaging [] lamp_controller tds lamp-Holds 0
      (omega arith)

list-page_example :
    Storage.list test_lib test_db 1 10 lamp_controller.storage
    ≡ (ok (take 1 (drop 0 tds), 1), lamp_controller.storage)
list-page_example =
    list-page test_lib test_db sure lamp_controller.storage tds lamp-Holds 1 10 0 1 refl
      (omega arith)

lamp-Texts : Texts test_lib.rfc (object lamp ∷ []) (entries test_db lamp_controller.storage)
unfolding SortedMap.insert
lamp-Texts = (refl, tt)

get_all-list_all_bytes_example :
    ((get_all test_lib test_db [] never never (request "" switch) lamp_controller).body
      ≡ payload (print test_lib.rfc (array (of_items (object lamp ∷ []))) []))
    × (Controller.list_all_bytes test_lib test_db [] lamp_controller
        ≡ (ok (print test_lib.rfc (array (of_items (object lamp ∷ []))) []), lamp_controller))
get_all-list_all_bytes_example =
    get_all-list_all_bytes test_lib test_db [] sure lamp_controller (object lamp ∷ []) lamp-Texts
      (request "" switch)

-- The test library's JSONPath finds the whole text.
filter_json_path-page_example :
    filter_json_path test_lib test_db [] 1 "$" 1 10 lamp_controller
    ≡ (ok (page_of 1 10 (object (plain_fields test_lib.rfc lamp) ∷ [])), lamp_controller)
filter_json_path-page_example =
    filter_json_path-page test_lib test_db sure test_lib-IsPaging [] lamp_controller tds lamp-Holds
      0 1 10 "$" (print test_lib.rfc (array (of_items (map object tds))) [])
      (of_items (map object tds)) (omega arith) (omega arith) (omega arith) (omega arith)
      (omega arith) refl
      (unmarshal-print_json test_lib.rfc (array (of_items (map object tds)))
        (plain_map test_lib.rfc lamp lamp-IsMap, tt))
