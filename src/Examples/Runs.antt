-- ===== src/Examples/Runs.antt =====
-- The theorems on the directory's operations, each on a concrete input.
use mathlib.Core.Option.{some_inj}
use thing_directory.Catalog.Http.{Request, is_nil_map, sent_map}
use thing_directory.Catalog.Http.Invariant.{KeepsId}
use thing_directory.Common.{
  ◌∙◌, ap, sym, ◌≡◌, refl, false, Option, none, some, [], ◌==◌, if◌then◌else◌,
}
use thing_directory.Common.Order.{text_order, bytes_order}
use thing_directory.Common.SortedMap
use thing_directory.Errors.{ok, err}
use thing_directory.Json.{
  Value, object, ThingDescription, text, Bytes, field, end, number, null, lbrace, rbrace, str,
  colon, comma, word_null,
}
use thing_directory.Json
use thing_directory.Json.Print.{print, marshal, is_printable, has_json_times}
use thing_directory.Json.Parse.{absorb, unmarshal, unmarshal_map}
use thing_directory.Json.RoundTrip.{plain as plain_value, plain_fields, plain_map}
use thing_directory.Json.Maps.{unmarshal_map-print}
use thing_directory.LevelDb.Memory.{done-injective}
use thing_directory.Catalog.Registration.Laws.{thing_registration-plain, reread}
use thing_directory.Catalog.Storage
use thing_directory.Catalog.Storage.{not_found_error, conflict_error, LevelDbStorage}
use thing_directory.Catalog.Storage.Crud.{stored}
use thing_directory.Catalog.Controller
use thing_directory.Catalog.Controller.{Controller, add_with_id}
use thing_directory.Catalog.Controller.RoundTrip.{gets, get-delete}
use thing_directory.Catalog.Stored.{IsCatalog}
use thing_directory.Catalog.Expiry.{clean_expired}
use thing_directory.Catalog.Expiry.Sweep.{clean_expired-stored}
use thing_directory.Catalog.Registration.Expiration.{HasExpired}
use thing_directory.Examples.{
  test_lib, test_db, lamp, lamp_registration, new_lamp, no_controller, lamp_controller, request,
}
use thing_directory.Examples.Witnesses.{sure, lamp-IsMap, new_lamp-IsMap}

abbrev store_lamp : Controller test_db
store_lamp = (Controller.add test_lib test_db [] new_lamp 5 "1" no_controller).1

lamp_is_removed : (Controller.delete test_lib test_db [] "urn:lamp" lamp_controller).0 ≡ ok tt
unfolding Controller.delete SortedMap.lookup Storage.get SortedMap.insert unmarshal_map print
    Storage.delete
lamp_is_removed = refl

get-delete_example :
    gets test_lib test_db sure [] "urn:lamp"
      (Controller.delete test_lib test_db [] "urn:lamp" lamp_controller).1
    ≡ (if "urn:lamp" == "urn:lamp"
        then err (not_found_error "urn:lamp")
        else gets test_lib test_db sure [] "urn:lamp" lamp_controller)
get-delete_example =
    get-delete test_lib test_db sure [] lamp_controller "urn:lamp" "urn:lamp" lamp_is_removed

pub lamp-IsCatalog : IsCatalog test_lib.rfc test_db lamp_controller.storage
unfolding SortedMap.insert
lamp-IsCatalog = record {
  each = (
    record {
      td = plain_fields test_lib.rfc lamp;
      reads = unmarshal_map-print test_lib.rfc lamp lamp-IsMap;
      json = plain_map test_lib.rfc lamp lamp-IsMap;
      identified = unfold SortedMap.lookup plain_value in refl;
      registration = reread test_lib.rfc lamp_registration;
      registered =
          thing_registration-plain test_lib.rfc lamp_registration lamp
            (unfold has_json_times in refl) (unfold SortedMap.lookup in refl);
    },
    tt,
  );
}

clean_expired-stored_example :
    ((clean_expired test_lib test_db 9 lamp_controller.storage).0 ≡ ok tt)
    × ((bytes : Bytes)
        → stored test_db lamp_controller.storage "urn:lamp" ≡ some bytes
        → HasExpired test_lib.rfc 9 bytes
        → stored test_db (clean_expired test_lib test_db 9 lamp_controller.storage).1 "urn:lamp"
          ≡ none)
    × (((bytes : Bytes)
          → stored test_db lamp_controller.storage "urn:lamp" ≡ some bytes
          → HasExpired test_lib.rfc 9 bytes
          → ⊥)
        → stored test_db (clean_expired test_lib test_db 9 lamp_controller.storage).1 "urn:lamp"
          ≡ stored test_db lamp_controller.storage "urn:lamp")
clean_expired-stored_example =
    clean_expired-stored test_lib 9 test_db sure "urn:lamp" lamp_controller.storage lamp-IsCatalog

abbrev patch_new_lamp : Request
patch_new_lamp = request "urn:lamp" new_lamp

new_lamp-is_map : is_nil_map patch_new_lamp ≡ false
unfolding is_nil_map unmarshal print SortedMap.lookup SortedMap.insert absorb
new_lamp-is_map = refl

sent_bytes :
    (td : ThingDescription) (patch_bytes new_bytes : Bytes)
    → plain_fields test_lib.rfc new_lamp ≡ td
    → marshal test_lib.rfc (object td) ≡ some patch_bytes
    → patch_bytes ≡ new_bytes
    → print test_lib.rfc (object new_lamp) [] ≡ new_bytes
unfolding marshal is_printable SortedMap.lookup plain_value
sent_bytes td patch_bytes new_bytes same_td printed same = cc

-- The patch has the id of the path.
pub new_lamp-KeepsId : KeepsId test_lib test_db [] patch_new_lamp lamp_controller
unfolding SortedMap.lookup plain_value
new_lamp-KeepsId old td merged (bytes, body, reads) m =
    let reads_td : unmarshal_map (print test_lib.rfc (object new_lamp) []) ≡ some td =
      rw (done-injective _ _ body) reads in
    let same_td : plain_fields test_lib.rfc new_lamp ≡ td =
      some_inj.0 (sym (unmarshal_map-print test_lib.rfc new_lamp new_lamp-IsMap) ∙ reads_td) in
    let sent : sent_map patch_new_lamp td ≡ object td = rw new_lamp-is_map refl in
    let same_bytes : print test_lib.rfc (object new_lamp) [] ≡ m.new_bytes =
      sent_bytes td m.patch_bytes m.new_bytes same_td
        (ap (marshal test_lib.rfc) (sym sent) ∙ m.marshalled_patch)
        (done-injective _ _ m.merged_bytes) in
    let same : plain_fields test_lib.rfc new_lamp ≡ merged = some_inj.0 (
      sym (unmarshal_map-print test_lib.rfc new_lamp new_lamp-IsMap)
      ∙ (ap unmarshal_map same_bytes ∙ m.reads)) in
    rw (sym same) refl
