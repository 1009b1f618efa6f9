-- ===== src/Examples/Witnesses.antt =====
-- Each theorem on a concrete input.
use thing_directory.Common.{◌≡◌, refl, String, [], ◌∷◌, arith, ltb}
use thing_directory.Common.Order.{text_order, bytes_order, less_bytes}
use thing_directory.Common.SortedMap
use thing_directory.Errors.{ok}
use thing_directory.Json.{field, end, null, lbrace, rbrace, str, colon, word_null}
use thing_directory.Json.Print.{marshal, is_printable}
use thing_directory.Json.Parse.{absorb, unmarshal_map}
use thing_directory.Json.RoundTrip.{IsMap, IsJsonMap}
use thing_directory.Json.Decoded.{unmarshal_map-IsJsonMap}
use thing_directory.LevelDb.{IsFaultless}
use thing_directory.LevelDb.Memory.{memory-IsFaultless}
use thing_directory.Catalog.Storage
use thing_directory.Catalog.Storage.{not_found_error, conflict_error, LevelDbStorage}
use thing_directory.Notification.Numbers.{uint64_to_byte}
use thing_directory.Notification.Numbers.Laws.{less_bytes-uint64_to_byte}
use thing_directory.Examples.{test_lib, test_db, lamp, new_lamp, no_controller, lamp_controller}

pub sure : IsFaultless test_db
sure = memory-IsFaultless String

pub lamp-IsMap : IsMap lamp
lamp-IsMap = ((refl, (refl, tt)), tt, ((refl, tt), tt, (tt, tt, tt)))

pub new_lamp-IsMap : IsMap new_lamp
new_lamp-IsMap = ((refl, tt), tt, (tt, tt, tt))

unmarshal_map-IsJsonMap_example : IsJsonMap (field "a" null end)
unfolding absorb SortedMap.lookup SortedMap.insert
unmarshal_map-IsJsonMap_example =
    unmarshal_map-IsJsonMap (lbrace ∷ str "a" ∷ colon ∷ word_null ∷ rbrace ∷ [])
      (field "a" null end) (unfold unmarshal_map in refl)

less_bytes-uint64_to_byte_example :
    less_bytes (uint64_to_byte 255) (uint64_to_byte 256) ≡ ltb 255 256
less_bytes-uint64_to_byte_example = less_bytes-uint64_to_byte 255 256 (omega arith) (omega arith)

pub lamp_is_added : (Storage.add test_lib test_db "urn:lamp" lamp no_controller.storage).0 ≡ ok tt
unfolding Storage.add SortedMap.lookup SortedMap.insert marshal is_printable
lamp_is_added = refl

pub new_lamp_replaces :
    (Storage.update test_lib test_db "urn:lamp" new_lamp lamp_controller.storage).0 ≡ ok tt
unfolding Storage.update SortedMap.lookup SortedMap.insert marshal is_printable
new_lamp_replaces = refl

pub lamp_is_deleted : (Storage.delete test_lib test_db "urn:lamp" lamp_controller.storage).0 ≡ ok tt
unfolding Storage.delete SortedMap.lookup SortedMap.insert
lamp_is_deleted = refl
