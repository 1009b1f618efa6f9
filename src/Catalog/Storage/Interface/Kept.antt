-- ===== src/Catalog/Storage/Interface/Kept.antt =====
-- The storage in LevelDB keeps what the interface promises.
use thing_directory.Common.{
  ◌≡◌, refl, ap, ◌∙◌, arith, inl, inr, ◌&&◌, String, Option, none, some, [], ◌==◌, All,
  if◌then◌else◌, is_some, Option-cases,
}
use thing_directory.Common.Order.{text_order}
use thing_directory.Common.SortedMap
use thing_directory.Common.SortedMap.{All-lookup, lookup-insert}
use thing_directory.Errors.{ok, err, is_ok, not-ok, Result-cases}
use thing_directory.Json.{ThingDescription, object, Bytes}
use thing_directory.Json.Print.{print}
use thing_directory.Json.Parse.{unmarshal_map}
use thing_directory.Json.RoundTrip.{IsMap, plain_fields}
use thing_directory.Json.Maps.{unmarshal_map-print}
use thing_directory.LevelDb.{LevelDb, IsFaultless}
use thing_directory.Libraries.{Libraries}
use thing_directory.Catalog.Storage.{LevelDbStorage, not_found_error, conflict_error}
use thing_directory.Catalog.Storage
use thing_directory.Catalog.Storage.Crud.{
  entries, stored, add-Added, update-Updated, add-error, update-error, stored-delete, get-decoded,
  get-state,
}
use thing_directory.Catalog.Storage.Entries.{add-All, update-All, delete-All}
use thing_directory.Catalog.Storage.Reads.{Reads}
use thing_directory.Catalog.Storage.Results.{add-result, update-result, delete-result}
use thing_directory.Catalog.Storage.Interface.{StorageMethods, IsStorage}

module _ (lib : Libraries) (L : LevelDb String) where
  -- LevelDBStorage
  abbrev pub level_db : StorageMethods
  level_db = record {
    Store = LevelDbStorage L;
    add = Storage.add lib L;
    update = Storage.update lib L;
    delete = Storage.delete lib L;
    get = Storage.get lib L;
    list = Storage.list lib L;
    list_all_bytes = Storage.list_all_bytes lib L;
    total = Storage.total lib L;
    iterator = Storage.iterator lib L;
    iterate_bytes = Storage.iterate_bytes lib L;
    closes = Storage.closes lib L;
  }

  abbrev decode : Option Bytes → Option ThingDescription
  decode none = none
  decode (some bytes) = unmarshal_map bytes

  abbrev pub shown : LevelDbStorage L → String → Option ThingDescription
  shown s id = decode (stored L s id)

  abbrev pub IsReadable : LevelDbStorage L → Type 0
  IsReadable s = All Reads (entries L s)

  module _ (s : LevelDbStorage L) (h : IsReadable s) where
    reads_at :
        (id : String) (bytes : Bytes)
        → stored L s id ≡ some bytes
        → (td : ThingDescription) × (unmarshal_map bytes ≡ some td)
    reads_at id bytes e = All-lookup Reads id (entries L s) bytes h e

    is_some-shown : (id : String) → is_some (shown s id) ≡ is_some (stored L s id)
    is_some-shown id = elim (Option-cases (stored L s id)) [
      | inl e ↦ rw e refl
      | inr (bytes, e) ↦ let (td, reads) = reads_at id bytes e in rw (e, reads) refl
    ]

    -- A text has been inserted under an id, or nothing was changed.
    shown-insert :
        (t : LevelDbStorage L) (id j : String) (td : ThingDescription)
        → IsMap td
        → entries L t ≡ SortedMap.insert id (print lib.rfc (object td) []) (entries L s)
        → shown t j ≡ (if id == j then some (plain_fields lib.rfc td) else shown s j)
    shown-insert t id j td m written = ground (
      arith,
      ap (SortedMap.lookup j) written,
      lookup-insert id j (print lib.rfc (object td) []) (entries L s),
      unmarshal_map-print lib.rfc td m,
    )

  module _ (sure : IsFaultless L) where
    level_db-got :
        (s : LevelDbStorage L) (id : String)
        → IsReadable s
        → Storage.get lib L id s
          ≡ (elim (shown s id) [ none ↦ err (not_found_error id) | some td ↦ ok td ], s)
    level_db-got s id h = λ i. (answer i, get-state lib L s id i)
      where
        answer :
            (Storage.get lib L id s).0
            ≡ elim (shown s id) [ none ↦ err (not_found_error id) | some td ↦ ok td ]
        answer = elim (Option-cases (stored L s id)) [
          | inl e ↦ get-decoded lib L s id sure ∙ rw e refl
          | inr (bytes, e) ↦
              let (td, reads) = reads_at s h id bytes e in
              get-decoded lib L s id sure ∙ rw (e, reads) refl
        ]

    level_db-added :
        (s : LevelDbStorage L) (id j : String) (td : ThingDescription)
        → IsMap td
        → IsReadable s
        → shown (Storage.add lib L id td s).1 j ≡ (
            if is_ok (Storage.add lib L id td s).0 && id == j
            then some (plain_fields lib.rfc td)
            else shown s j)
    level_db-added s id j td m h = elim (Result-cases (Storage.add lib L id td s).0) [
      | inl (u, e) ↦ rw e (
          shown-insert s h (Storage.add lib L id td s).1 id j td m
            (add-Added lib L s id td e).written)
      | inr fails ↦ rw (fails, add-error lib L s id td (not-ok _ fails)) refl
    ]

    level_db-updated :
        (s : LevelDbStorage L) (id j : String) (td : ThingDescription)
        → IsMap td
        → IsReadable s
        → shown (Storage.update lib L id td s).1 j ≡ (
            if is_ok (Storage.update lib L id td s).0 && id == j
            then some (plain_fields lib.rfc td)
            else shown s j)
    level_db-updated s id j td m h = elim (Result-cases (Storage.update lib L id td s).0) [
      | inl (u, e) ↦ rw e (
          shown-insert s h (Storage.update lib L id td s).1 id j td m
            (update-Updated lib L s id td e).written)
      | inr fails ↦ rw (fails, update-error lib L s id td (not-ok _ fails)) refl
    ]

    readable_text :
        (id : String) (td : ThingDescription) → IsMap td → Reads (id, print lib.rfc (object td) [])
    readable_text id td m = (plain_fields lib.rfc td, unmarshal_map-print lib.rfc td m)

    -- Over a store that does not fail, the storage in LevelDB keeps the promise of the interface:
    -- it is a map from ids to Thing Descriptions, as long as its entries are JSON objects, which
    -- each call keeps so; `get`, `add`, `update` and `delete` answer by what the map holds, errors
    -- included, and those that are answered without an error change the map under their id, and
    -- nothing else.
    pub level_db-IsStorage : IsStorage lib level_db shown IsReadable
    level_db-IsStorage = record {
      got = level_db-got;
      add_answer = λ s id td h. add-result lib L sure s id td ∙ rw (is_some-shown s h id) refl;
      added = λ s id j td m h. (
        add-All lib L Reads id td s (λ p. readable_text id td m) h,
        level_db-added s id j td m h,
      );
      update_answer =
          λ s id td h. update-result lib L sure s id td ∙ rw (is_some-shown s h id) refl;
      updated = λ s id j td m h. (
        update-All lib L Reads id td s (λ p. readable_text id td m) h,
        level_db-updated s id j td m h,
      );
      delete_answer = λ s id h. delete-result lib L sure s id ∙ rw (is_some-shown s h id) refl;
      deleted = λ s id j h. (
        delete-All lib L Reads id s h,
        ap decode (stored-delete lib L sure s id j) ∙ ground arith,
      );
    }
