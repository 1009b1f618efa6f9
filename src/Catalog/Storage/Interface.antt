-- ===== src/Catalog/Storage/Interface.antt =====
-- The interface Storage of catalog/catalog.go, and what it promises to the controller.
pub mod Kept
pub mod Agreement
use thing_directory.Common.{
  ℕ, ◌≡◌, refl, sym, ap, ◌∙◌, arith, inl, inr, Bool, true, false, ◌&&◌, String, Option, none, some,
  List, [], ◌==◌, eq_iff, All, if◌then◌else◌, is_some, Option-cases, Bool-cases,
}
use thing_directory.Common.Order.{text_order}
use thing_directory.Common.SortedMap
use thing_directory.Common.SortedMap.{All-lookup, lookup-insert}
use thing_directory.Errors.{Result, ok, err, plain, is_ok, not-ok, Result-cases}
use thing_directory.Exec.{Exec}
use thing_directory.Json.{ThingDescription, object, Bytes}
use thing_directory.Json.Print.{print, is_printable}
use thing_directory.Json.Parse.{unmarshal_map}
use thing_directory.Json.RoundTrip.{IsMap, plain_fields}
use thing_directory.Json.Maps.{unmarshal_map-print}
use thing_directory.LevelDb.{LevelDb, IsFaultless}
use thing_directory.Libraries.{Libraries}
use thing_directory.Catalog.Storage.{LevelDbStorage, not_found_error, conflict_error}
use thing_directory.Catalog.Storage
use thing_directory.Catalog.Storage.Crud.{
  entries, stored, add-Added, update-Updated, add-error, update-error, stored-delete, get-decoded,
  get-state,
}
use thing_directory.Catalog.Storage.Entries.{add-All, update-All, delete-All}
use thing_directory.Catalog.Storage.Reads.{Reads}
use thing_directory.Catalog.Storage.Results.{add-result, update-result, delete-result}

-- The methods, with what is received from the channels of the iterators, and whether Close returns.
pub record StorageMethods : Type 1 where
  pub Store : Type 0
  pub add : String → ThingDescription → Exec Store (Unit {0})
  pub update : String → ThingDescription → Exec Store (Unit {0})
  pub delete : String → Exec Store (Unit {0})
  pub get : String → Exec Store ThingDescription
  pub list : ℕ → ℕ → Exec Store (List ThingDescription × ℕ)
  pub list_all_bytes : Exec Store Bytes
  pub total : Exec Store ℕ
  pub iterator : Store → List ThingDescription
  pub iterate_bytes : (ℕ → Bool) → Store → List Bytes
  pub closes : Store → Bool

-- A storage that is fit is a map from ids to Thing Descriptions: each call is answered by what the map
-- holds, changes it, and leaves the storage fit.
pub record IsStorage (lib : Libraries) (S : StorageMethods)
    (content : S.Store → String → Option ThingDescription) (IsFit : S.Store → Type 0) : Type 0 where
  pub got :
      (s : S.Store) (id : String)
      → IsFit s
      → S.get id s ≡ (elim (content s id) [ none ↦ err (not_found_error id) | some td ↦ ok td ], s)
  pub add_answer :
      (s : S.Store) (id : String) (td : ThingDescription)
      → IsFit s
      → (S.add id td s).0 ≡ (
          if id == ""
          then err (plain "ID is not set")
          else if is_printable (object td)
          then (if is_some (content s id) then err (conflict_error id) else ok tt)
          else err (plain "json"))
  pub added :
      (s : S.Store) (id j : String) (td : ThingDescription)
      → IsMap td
      → IsFit s
      → IsFit (S.add id td s).1
        × (content (S.add id td s).1 j ≡ (
            if is_ok (S.add id td s).0 && id == j
            then some (plain_fields lib.rfc td)
            else content s j))
  pub update_answer :
      (s : S.Store) (id : String) (td : ThingDescription)
      → IsFit s
      → (S.update id td s).0 ≡ (
          if is_printable (object td)
          then (if is_some (content s id) then ok tt else err (not_found_error id))
          else err (plain "json"))
  pub updated :
      (s : S.Store) (id j : String) (td : ThingDescription)
      → IsMap td
      → IsFit s
      → IsFit (S.update id td s).1
        × (content (S.update id td s).1 j ≡ (
            if is_ok (S.update id td s).0 && id == j
            then some (plain_fields lib.rfc td)
            else content s j))
  pub delete_answer :
      (s : S.Store) (id : String)
      → IsFit s
      → (S.delete id s).0 ≡ (if is_some (content s id) then ok tt else err (not_found_error id))
  pub deleted :
      (s : S.Store) (id j : String)
      → IsFit s
      → IsFit (S.delete id s).1
        × (content (S.delete id s).1 j ≡ (if id == j then none else content s j))
