-- ===== src/Catalog/Storage/Crud.antt =====
-- What a successful or refused call of the storage has read and written, by the laws of LevelDB.
use thing_directory.Common.{
  ◌≡◌, ◌≢◌, refl, sym, inl, inr, true, false, String, Option, none, some, List, [], ◌==◌, eq_iff,
  arith, is_some, Bool-cases, if◌then◌else◌,
}
use thing_directory.Common.Order.{text_order}
use thing_directory.Common.SortedMap
use thing_directory.Common.SortedMap.{lookup-erase}
use thing_directory.Errors.{Result, ok, err, Io, done, fault}
use thing_directory.Json.{ThingDescription, object, Bytes}
use thing_directory.Json.Print.{marshal, print, is_printable}
use thing_directory.Json.Parse.{unmarshal_map}
use thing_directory.LevelDb.{LevelDb, IsFaultless}
use thing_directory.LevelDb.Faultless.{get-eq, has-eq}
use thing_directory.Libraries.{Libraries}
use thing_directory.Catalog.Storage.{
  LevelDbStorage, writes, or_json_error, not_found_error, add, get, update, delete,
}

module _ (L : LevelDb String) where
  abbrev pub entries : LevelDbStorage L → List (String × Bytes)
  entries s = L.contents s.db

  abbrev pub stored : LevelDbStorage L → String → Option Bytes
  stored s id = SortedMap.lookup id (entries s)

module _ (lib : Libraries) (L : LevelDb String) (s : LevelDbStorage L) (id : String) where
  has-some : L.has s.db id ≡ done true → is_some (stored L s id) ≡ true
  has-some h = sym (L.has_law s.db id true h)

  has-none : L.has s.db id ≡ done false → stored L s id ≡ none
  has-none h = ground (arith, L.has_law s.db id false h)

  module _ (bytes : Bytes) where
    put-entries :
        (writes lib L (λ d. L.put d id bytes) s).0 ≡ ok tt
        → (entries L (writes lib L (λ d. L.put d id bytes) s).1
            ≡ SortedMap.insert id bytes (entries L s))
          × ((writes lib L (λ d. L.put d id bytes) s).1.wg ≡ s.wg)
    put-entries = go (L.put s.db id bytes) refl
      where
        go :
            (r : Io L.Db)
            → L.put s.db id bytes ≡ r
            → (writes lib L (λ d. r) s).0 ≡ ok tt
            → (entries L (writes lib L (λ d. r) s).1 ≡ SortedMap.insert id bytes (entries L s))
              × ((writes lib L (λ d. r) s).1.wg ≡ s.wg)
        go (done e) p h = (L.put_law s.db e id bytes p, refl)
        go (fault m) p h = cc

  delete-entries :
      (writes lib L (λ d. L.delete d id) s).0 ≡ ok tt
      → (entries L (writes lib L (λ d. L.delete d id) s).1 ≡ SortedMap.erase id (entries L s))
        × ((writes lib L (λ d. L.delete d id) s).1.wg ≡ s.wg)
  delete-entries = go (L.delete s.db id) refl
    where
      go :
          (r : Io L.Db)
          → L.delete s.db id ≡ r
          → (writes lib L (λ d. r) s).0 ≡ ok tt
          → (entries L (writes lib L (λ d. r) s).1 ≡ SortedMap.erase id (entries L s))
            × ((writes lib L (λ d. r) s).1.wg ≡ s.wg)
      go (done e) p h = (L.delete_law s.db e id p, refl)
      go (fault m) p h = cc

  module _ (td : ThingDescription) where
    -- What a call of `add` that succeeded has found and done.
    pub record Added (t : LevelDbStorage L) : Type 0 where
      pub named : (id == "") ≡ false
      pub printable : is_printable (object td) ≡ true
      pub fresh : stored L s id ≡ none
      pub written : entries L t ≡ SortedMap.insert id (print lib.rfc (object td) []) (entries L s)
      pub released : t.wg ≡ s.wg

    -- If the storage's `add` succeeds, the id was not empty and not taken, the Thing Description is
    -- JSON, its text has been inserted under the id and nothing else changed, and no iterator is
    -- left open.
    pub add-Added : (add lib L id td s).0 ≡ ok tt → Added (add lib L id td s).1
    unfolding add marshal
    add-Added h = ground (arith, has-none, put-entries (print lib.rfc (object td) []))

    pub record Updated (t : LevelDbStorage L) : Type 0 where
      pub printable : is_printable (object td) ≡ true
      pub present : is_some (stored L s id) ≡ true
      pub written : entries L t ≡ SortedMap.insert id (print lib.rfc (object td) []) (entries L s)
      pub released : t.wg ≡ s.wg

    -- If the storage's `update` succeeds, the id was there, the Thing Description is JSON, its text
    -- has replaced what was under the id and nothing else changed, and no iterator is left open.
    pub update-Updated : (update lib L id td s).0 ≡ ok tt → Updated (update lib L id td s).1
    unfolding update marshal
    update-Updated h = ground (arith, has-some, put-entries (print lib.rfc (object td) []))

  pub record Deleted (t : LevelDbStorage L) : Type 0 where
    pub present : is_some (stored L s id) ≡ true
    pub written : entries L t ≡ SortedMap.erase id (entries L s)
    pub released : t.wg ≡ s.wg

  -- If the storage's `delete` succeeds, the id was there, its entry has been erased and nothing
  -- else changed, and no iterator is left open.
  pub delete-Deleted : (delete lib L id s).0 ≡ ok tt → Deleted (delete lib L id s).1
  unfolding delete
  delete-Deleted h = ground (arith, has-some, delete-entries)

-- A call that does not succeed leaves the storage as it was.
module _ (lib : Libraries) (L : LevelDb String) (s : LevelDbStorage L) (id : String) where
  -- If the storage's `add` does not succeed, the storage is as it was.
  pub add-error :
      (td : ThingDescription) → (add lib L id td s).0 ≢ ok tt → (add lib L id td s).1 ≡ s
  unfolding add
  add-error td h = ground arith

  -- If the storage's `update` does not succeed, the storage is as it was.
  pub update-error :
      (td : ThingDescription) → (update lib L id td s).0 ≢ ok tt → (update lib L id td s).1 ≡ s
  unfolding update
  update-error td h = ground arith

  pub delete-error : (delete lib L id s).0 ≢ ok tt → (delete lib L id s).1 ≡ s
  unfolding delete
  delete-error h = ground arith

  pub get-state : (get lib L id s).1 ≡ s
  unfolding get
  get-state = ground arith

  abbrev pub decoded : Option Bytes → Result ThingDescription
  decoded none = err (not_found_error id)
  decoded (some bytes) = or_json_error (unmarshal_map bytes)

  -- Over a store that does not fail, the storage's `get` returns the decoded text that is under the
  -- id, or the not-found error if there is none.
  pub get-decoded : IsFaultless L → (get lib L id s).0 ≡ decoded (stored L s id)
  unfolding get
  get-decoded sure = ground (arith, get-eq L sure s.db id)

-- After a deletion nothing is stored under the id, whether it was found or not, and the rest is as it
-- was.
module _ (lib : Libraries) (L : LevelDb String) (sure : IsFaultless L) (s : LevelDbStorage L)
    (id j : String) where
  pub deletes : (writes lib L (λ d. L.delete d id) s).0 ≡ ok tt
  deletes = let (e, gone) = sure.delete s.db id in rw (gone, writes) refl

  pub stored-delete : stored L (delete lib L id s).1 j ≡ (if id == j then none else stored L s j)
  unfolding delete
  stored-delete = elim (Bool-cases (is_some (stored L s id))) [
    | inl present ↦
        rw (has-eq L sure s.db id, present, (delete-entries lib L s id deletes).0)
          (lookup-erase id j (entries L s))
    | inr absent ↦ ground (arith, has-eq L sure s.db id, absent, eq_iff id j)
  ]
