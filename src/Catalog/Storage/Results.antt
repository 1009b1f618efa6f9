-- ===== src/Catalog/Storage/Results.antt =====
-- The result of each call of the storage over a store that does not fail, on every branch.
use thing_directory.Common.{◌≡◌, refl, String, [], ◌==◌, arith, is_some, if◌then◌else◌}
use thing_directory.Common.Order.{text_order}
use thing_directory.Errors.{ok, err, plain}
use thing_directory.Json.{ThingDescription, object, Bytes}
use thing_directory.Json.Print.{marshal, print, is_printable}
use thing_directory.LevelDb.{LevelDb, IsFaultless}
use thing_directory.LevelDb.Faultless.{has-eq}
use thing_directory.Libraries.{Libraries}
use thing_directory.Catalog.Storage.{
  LevelDbStorage, writes, not_found_error, conflict_error, add, update, delete,
}
use thing_directory.Catalog.Storage.Crud.{stored, deletes}

module _ (lib : Libraries) (L : LevelDb String) (sure : IsFaultless L) (s : LevelDbStorage L)
    (id : String) where
  puts : (bytes : Bytes) → (writes lib L (λ d. L.put d id bytes) s).0 ≡ ok tt
  puts bytes = let (e, put) = sure.put s.db id bytes in rw (put, writes) refl

  -- Over a store that does not fail, the storage's `add` refuses an empty id, a Thing Description
  -- that is not JSON and an id that is taken, in this order, and otherwise succeeds.
  pub add-result :
      (td : ThingDescription)
      → (add lib L id td s).0 ≡ (
          if id == ""
          then err (plain "ID is not set")
          else if is_printable (object td)
          then (if is_some (stored L s id) then err (conflict_error id) else ok tt)
          else err (plain "json"))
  unfolding add marshal
  add-result td = ground (arith, has-eq L sure s.db id, puts (print lib.rfc (object td) []))

  -- Over a store that does not fail, the storage's `update` refuses a Thing Description that is not
  -- JSON and an id that is not there, in this order, and otherwise succeeds.
  pub update-result :
      (td : ThingDescription)
      → (update lib L id td s).0 ≡ (
          if is_printable (object td)
          then (if is_some (stored L s id) then ok tt else err (not_found_error id))
          else err (plain "json"))
  unfolding update marshal
  update-result td = ground (arith, has-eq L sure s.db id, puts (print lib.rfc (object td) []))

  -- Over a store that does not fail, the storage's `delete` succeeds for an id that is there, and
  -- otherwise returns the not-found error.
  pub delete-result :
      (delete lib L id s).0 ≡ (if is_some (stored L s id) then ok tt else err (not_found_error id))
  unfolding delete
  delete-result = ground (arith, has-eq L sure s.db id, deletes lib L sure s id id)
