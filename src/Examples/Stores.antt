-- ===== src/Examples/Stores.antt =====
-- The theorems on the interface of the storage, on a storage in LevelDB and on a function from ids to
-- Thing Descriptions.
use thing_directory.Common.{
  arith, true, String, Option, none, some, List, [], ◌∷◌, ◌==◌, eq_iff, if◌then◌else◌, is_some,
}
use thing_directory.Common.Order.{text_order}
use thing_directory.Errors.{Result, ok, err, plain}
use thing_directory.Exec.{Exec}
use thing_directory.Json.{ThingDescription, object}
use thing_directory.Json.Print.{is_printable}
use thing_directory.Json.RoundTrip.{plain_fields}
use thing_directory.Catalog.Storage.{not_found_error, conflict_error}
use thing_directory.Catalog.Storage.Interface.{StorageMethods, IsStorage}
use thing_directory.Catalog.Storage.Interface.Kept.{level_db, shown, IsReadable, level_db-IsStorage}
use thing_directory.Catalog.Storage.Interface.Agreement.{
  StorageCall, adding, updating, deleting, getting,
}
use thing_directory.Examples.{test_lib, test_db, new_lamp}
use thing_directory.Examples.Witnesses.{sure}

-- A storage that holds a function, and lists nothing.
abbrev Shelf : Type 0
Shelf = String → Option ThingDescription

abbrev with : String → ThingDescription → Shelf → Shelf
with id td s j = if id == j then some (plain_fields test_lib.rfc td) else s j

add_to : String → ThingDescription → Exec Shelf (Unit {0})
add_to id td s =
    if id == ""
    then (err (plain "ID is not set"), s)
    else if is_printable (object td)
    then (if is_some (s id) then (err (conflict_error id), s) else (ok tt, with id td s))
    else (err (plain "json"), s)

update_in : String → ThingDescription → Exec Shelf (Unit {0})
update_in id td s =
    if is_printable (object td)
    then (if is_some (s id) then (ok tt, with id td s) else (err (not_found_error id), s))
    else (err (plain "json"), s)

remove_from : String → Exec Shelf (Unit {0})
remove_from id s =
    if is_some (s id)
    then (ok tt, λ j. if id == j then none else s j)
    else (err (not_found_error id), s)

abbrev look_up : Option ThingDescription → String → Result ThingDescription
look_up none id = err (not_found_error id)
look_up (some td) id = ok td

abbrev shelf : StorageMethods
shelf = record {
  Store = Shelf;
  add = add_to;
  update = update_in;
  delete = remove_from;
  get = λ id s. (look_up (s id) id, s);
  list = λ page per_page s. (ok ([], 0), s);
  list_all_bytes = λ s. (ok [], s);
  total = λ s. (ok 0, s);
  iterator = λ s. [];
  iterate_bytes = λ cancelled s. [];
  closes = λ s. true;
}

shelf-IsStorage : IsStorage test_lib shelf (λ s. s) (λ s. Unit {0})
unfolding add_to update_in remove_from
shelf-IsStorage = record {
  got = λ s id h. ground arith;
  add_answer = λ s id td h. ground arith;
  added = λ s id j td m h. (tt, ground arith);
  update_answer = λ s id td h. ground arith;
  updated = λ s id j td m h. (tt, ground arith);
  delete_answer = λ s id h. ground arith;
  deleted = λ s id j h. (tt, ground (arith, eq_iff id j));
}

level_db-IsStorage_example :
    IsStorage test_lib
      (level_db test_lib test_db)
      (shown test_lib test_db)
      (IsReadable test_lib test_db)
level_db-IsStorage_example = level_db-IsStorage test_lib test_db sure

abbrev calls : List StorageCall
calls =
    adding "urn:lamp" new_lamp
    ∷ adding "urn:lamp" new_lamp
    ∷ getting "urn:lamp"
    ∷ deleting "urn:lamp"
    ∷ updating "urn:lamp" new_lamp
    ∷ []
