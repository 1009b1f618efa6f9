-- ===== src/Catalog/Storage/Entries.antt =====
-- A property of every stored entry is kept by the calls of the storage, failing or not, if what they
-- write has it.
use thing_directory.Common.{◌≡◌, inl, inr, true, String, [], All}
use thing_directory.Common.Order.{text_order}
use thing_directory.Common.SortedMap.{All-insert, All-erase}
use thing_directory.Errors.{ok-cases}
use thing_directory.Json.{ThingDescription, object, Bytes}
use thing_directory.Json.Print.{print, is_printable}
use thing_directory.LevelDb.{LevelDb}
use thing_directory.Libraries.{Libraries}
use thing_directory.Catalog.Storage.{LevelDbStorage, add, update, delete}
use thing_directory.Catalog.Storage.Crud.{
  entries, add-Added, update-Updated, delete-Deleted, add-error, update-error, delete-error,
}

module _ (lib : Libraries) (L : LevelDb String) (P : String × Bytes → Type 0) (id : String) where
  module _ (td : ThingDescription) (s : LevelDbStorage L)
      (written : is_printable (object td) ≡ true → P (id, print lib.rfc (object td) []))
      (h : All P (entries L s)) where
    pub add-All : All P (entries L (add lib L id td s).1)
    add-All = elim (ok-cases (add lib L id td s).0) [
      | inl done ↦
          let a = add-Added lib L s id td done in
          rw a.written (All-insert P id _ (entries L s) (written a.printable) h)
      | inr failed ↦ rw (add-error lib L s id td failed) h
    ]

    pub update-All : All P (entries L (update lib L id td s).1)
    update-All = elim (ok-cases (update lib L id td s).0) [
      | inl done ↦
          let a = update-Updated lib L s id td done in
          rw a.written (All-insert P id _ (entries L s) (written a.printable) h)
      | inr failed ↦ rw (update-error lib L s id td failed) h
    ]

  pub delete-All :
      (s : LevelDbStorage L) → All P (entries L s) → All P (entries L (delete lib L id s).1)
  delete-All s h = elim (ok-cases (delete lib L id s).0) [
    | inl done ↦ rw (delete-Deleted lib L s id done).written (All-erase P id (entries L s) h)
    | inr failed ↦ rw (delete-error lib L s id failed) h
  ]
