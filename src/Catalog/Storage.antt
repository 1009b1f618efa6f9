-- ===== src/Catalog/Storage.antt =====
-- catalog/ldbstorage.go: Thing Descriptions in LevelDB, as JSON text under their ids.
pub mod Interface
pub mod Crud
pub mod Results
pub mod Reads
pub mod Entries
pub mod Pages
use Prim.Native.String.{◌++◌ as text_append}
use thing_directory.Common.{
  ℕ, zero, suc, ◌+◌, ◌-◌, Bool, true, false, ◌&&◌, String, Option, none, some, List, [], ◌∷◌, ◌++◌,
  ◌==◌, ltb, leb, eqb, if◌then◌else◌, set, replicate, length,
}
use thing_directory.Common.Order.{text_order}
use thing_directory.Errors.{
  Error, not_found, conflict, bad_request, plain, Result, ok, err, Io, done, fault, io,
}
use thing_directory.Exec.{Exec, pure, raise, lift, gets, modify, continue, ◌>>=◌, ◌>>◌}
use thing_directory.Json.{
  ThingDescription, Fields, end, object, Token, lbrack, rbrack, comma, Bytes,
}
use thing_directory.Json.Print.{marshal}
use thing_directory.Json.Parse.{unmarshal_map}
use thing_directory.LevelDb.{LevelDb, everything}
use thing_directory.Libraries.{Libraries}

-- json.Marshal and json.Unmarshal with their error, whose text is left out.
abbrev pub or_json_error {ℓ} : {A : Type ℓ} → Option A → Result A
or_json_error none = err (plain "json")
or_json_error (some a) = ok a

abbrev pub not_found_error : String → Error
not_found_error id = not_found (text_append id " is not found")

abbrev pub conflict_error : String → Error
conflict_error id = conflict (text_append id " is not unique")

abbrev pub max_per_page : ℕ
max_per_page = 100

abbrev pub iterator_error : Option String → Result (Unit {0})
iterator_error none = ok tt
iterator_error (some m) = err (plain m)

-- The loop of `list`: it breaks behind the page, ends with the iterator, or meets an entry that is
-- no JSON object.
pub data Visit : Type 0 where
  broke : List ThingDescription → Visit
  finished : List ThingDescription → Visit
  corrupt : Visit

unfoldable pub visit : ℕ → ℕ → ℕ → List ThingDescription → List (String × Bytes) → Visit
visit offset limit i devices [] = finished devices
visit offset limit i devices ((key, bytes) ∷ entries) = elim (unmarshal_map bytes) [
  | none ↦ corrupt
  | some td ↦
      let within = visit offset limit (i + 1) (set devices (i - offset) td) entries in
      let before = visit offset limit (i + 1) devices entries in
      if leb offset i && ltb i (offset + limit)
      then within
      else if leb (offset + limit) i
      then broke devices
      else before
]

-- The entries of `listAllBytes`, with a comma in front of each but the first.
unfoldable pub joined : Bool → List (String × Bytes) → Bytes
joined first [] = []
joined first ((key, bytes) ∷ entries) =
    (if first then bytes else comma ∷ bytes) ++ joined false entries

-- What `iterator` sends before its channel is closed: an entry that is no JSON object ends it.
unfoldable pub sent : List (String × Bytes) → List ThingDescription
sent [] = []
sent ((key, bytes) ∷ entries) = elim (unmarshal_map bytes) [
  | none ↦ []
  | some td ↦ td ∷ sent entries
]

-- What `iterateBytes` sends: `cancelled i` says whether the context is done at the i-th entry.
unfoldable pub sent_bytes : (ℕ → Bool) → ℕ → List (String × Bytes) → List Bytes
sent_bytes cancelled i [] = []
sent_bytes cancelled i ((key, bytes) ∷ entries) =
    let more = bytes ∷ sent_bytes cancelled (i + 1) entries in if cancelled i then [] else more

-- `wg` counts the iterators that are open; `Close` waits until there is none.
pub record LevelDbStorage (L : LevelDb String) : Type 0 where
  pub db : L.Db
  pub wg : ℕ

module _ (lib : Libraries) (L : LevelDb String) where
  abbrev pub Method : Type 0 → Type 0
  Method A = Exec (LevelDbStorage L) A

  abbrev pub reads {ℓ} :
      {A : Type ℓ} → (L.Db → Io A) → LevelDbStorage L → Result A × LevelDbStorage L
  reads f s = (io (f s.db), s)

  abbrev pub writes : (L.Db → Io L.Db) → Method (Unit {0})
  writes f s = elim (f s.db) [
    | done d ↦ (ok tt, record s { db = d })
    | fault m ↦ (err (plain m), s)
  ]

  abbrev pub or_not_found {ℓ} : {A : Type ℓ} → String → Option A → Result A
  or_not_found id none = err (not_found_error id)
  or_not_found id (some a) = ok a

  abbrev pub open_iterator : Method (Unit {0})
  open_iterator s = (ok tt, record s { wg = s.wg + 1 })

  abbrev pub close_iterator : Method (Unit {0})
  close_iterator s = (ok tt, record s { wg = s.wg - 1 })

  unfoldable pub add : String → ThingDescription → Method (Unit {0})
  add id td = if id == "" then raise (plain "ID is not set") else do
    bytes ← lift (or_json_error (marshal lib.rfc (object td)))
    found ← reads (λ d. L.has d id)
    if found then raise (conflict_error id) else writes (λ d. L.put d id bytes)

  unfoldable pub get : String → Method ThingDescription
  get id = do
    found ← reads (λ d. L.get d id)
    bytes ← lift (or_not_found id found)
    lift (or_json_error (unmarshal_map bytes))

  unfoldable pub update : String → ThingDescription → Method (Unit {0})
  update id td = do
    bytes ← lift (or_json_error (marshal lib.rfc (object td)))
    found ← reads (λ d. L.has d id)
    if found then writes (λ d. L.put d id bytes) else raise (not_found_error id)

  unfoldable pub delete : String → Method (Unit {0})
  delete id = do
    found ← reads (λ d. L.has d id)
    if found then writes (λ d. L.delete d id) else raise (not_found_error id)

  unfoldable pub total : Method ℕ
  total = do
    open_iterator
    entries ← gets (λ s. L.scan s.db everything)
    close_iterator
    lift (iterator_error entries.1)
    pure (length entries.0)

  abbrev pub page_or_error : Io (ℕ × ℕ) → Result (ℕ × ℕ)
  page_or_error (done p) = ok p
  page_or_error (fault m) = err (bad_request (text_append "Unable to paginate: " m))

  -- The end of `list`. The early return on a corrupt entry closes nothing.
  abbrev pub conclude : Option String → ℕ → Visit → Method (List ThingDescription × ℕ)
  conclude error count corrupt = raise (plain "json")
  conclude error count (broke devices) = close_iterator >> pure (devices, count)
  conclude error count (finished devices) = do
    close_iterator
    lift (iterator_error error)
    pure (devices, count)

  unfoldable pub list : ℕ → ℕ → Method (List ThingDescription × ℕ)
  unfolding total visit
  list page per_page = do
    total ← total
    window ← lift (page_or_error (lib.paging total page per_page max_per_page))
    open_iterator
    entries ← gets (λ s. L.scan s.db everything)
    conclude entries.1 total (visit window.0 window.1 0 (replicate window.1 end) entries.0)

  unfoldable pub list_all_bytes : Method Bytes
  unfolding joined
  list_all_bytes = do
    open_iterator
    entries ← gets (λ s. L.scan s.db everything)
    close_iterator
    lift (iterator_error entries.1)
    pure (lbrack ∷ (joined true entries.0 ++ rbrack ∷ []))

  -- What is received from the channels of `iterator` and `iterateBytes` until they are closed.
  unfoldable pub iterator : LevelDbStorage L → List ThingDescription
  unfolding sent
  iterator s = sent (L.scan s.db everything).0

  unfoldable pub iterate_bytes : (ℕ → Bool) → LevelDbStorage L → List Bytes
  unfolding sent_bytes
  iterate_bytes cancelled s = sent_bytes cancelled 0 (L.scan s.db everything).0

  -- Whether `Close` returns: it waits for the open iterators.
  unfoldable pub closes : LevelDbStorage L → Bool
  closes s = eqb s.wg 0
