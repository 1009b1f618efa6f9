-- ===== src/Catalog/Controller.antt =====
-- catalog/controller.go: the operations of the directory, over the storage. What the code reads from
-- the clock and draws as a UUID are arguments; the goroutines that it starts for its listeners are
-- collected in `spawned`.
pub mod Effects
pub mod Outcomes
pub mod RoundTrip
pub mod Listing
pub mod Contents
pub mod Failures
pub mod Specification
pub mod Refinement
pub mod Mirror
pub mod Stamping
pub mod Returning
use Prim.Native.String.{◌++◌ as text_append}
use thing_directory.Common.{
  ℕ, zero, suc, ◌+◌, ◌*◌, Bool, true, false, String, Option, none, some, List, [], ◌∷◌, ◌++◌, ◌==◌,
  leb, eqb, if◌then◌else◌, length, take, drop,
}
use thing_directory.Common.Order.{text_order}
use thing_directory.Time.{Time}
use thing_directory.Wot.{ValidationIssue, ThingRegistration, key_thing_id, key_thing_registration}
use thing_directory.Wot.Validation.{validate_against_schemas}
use thing_directory.Errors.{
  Error, bad_request, validation, plain, Result, ok, err, panicked, Io, done, fault, io,
}
use thing_directory.Exec.{Exec, pure, raise, lift, gets, modify, continue, ◌>>=◌, ◌>>◌}
use thing_directory.Json.{
  Value, text, object, array, registration, ThingDescription, Fields, end, get, put, as_text, Bytes,
}
use thing_directory.Json.Print.{marshal}
use thing_directory.Json.Parse.{unmarshal_map}
use thing_directory.LevelDb.{LevelDb}
use thing_directory.Libraries.{Libraries}
use thing_directory.Catalog.Storage
use thing_directory.Catalog.Storage.{LevelDbStorage, or_json_error, max_per_page}
use thing_directory.Catalog.Registration.{thing_registration, compute_expiry, thing_ttl}
use thing_directory.Catalog.Events.{Job, creation, change, deletion}

pub record Controller (L : LevelDb String) : Type 0 where
  pub storage : LevelDbStorage L
  pub spawned : List Job

-- The id of a new Thing Description: its own, or a system-generated URN.
abbrev pub id_or_urn : String → Option String → String
id_or_urn uuid none = text_append "urn:uuid:" uuid
id_or_urn uuid (some id) = if id == "" then text_append "urn:uuid:" uuid else id

abbrev pub with_id : String → Option String → ThingDescription → ThingDescription
with_id uuid none td = put key_thing_id (text (id_or_urn uuid none)) td
with_id uuid (some id) td =
    if id == "" then put key_thing_id (text (id_or_urn uuid (some id))) td else td

-- The registration that the directory writes, from the one that the client sent.
unfoldable pub registered : Option Time → Option ThingRegistration → Time → ThingRegistration
registered created tr now = record {
  created = created;
  expires = compute_expiry tr now;
  modified = some now;
  retrieved = none;
  ttl = thing_ttl tr;
}

unfoldable pub stamp :
    Option Time → Option ThingRegistration → Time → ThingDescription → ThingDescription
unfolding registered
stamp created tr now td = put key_thing_registration (registration (registered created tr now)) td

abbrev created_of : Option ThingRegistration → Option Time
created_of none = none
created_of (some tr) = tr.created

module _ (lib : Libraries) (L : LevelDb String) (schemas : List lib.Schema) where
  abbrev pub Method : Type 0 → Type 0
  Method A = Exec (Controller L) A

  abbrev pub stores {ℓ} :
      {A : Type ℓ}
      → (LevelDbStorage L → Result A × LevelDbStorage L)
      → Controller L
      → Result A × Controller L
  stores m c = ((m c.storage).0, record c { storage = (m c.storage).1 })

  abbrev pub spawn : Job → Method (Unit {0})
  spawn job c = (ok tt, record c { spawned = c.spawned ++ job ∷ [] })

  abbrev issues_error : List ValidationIssue → Result (Unit {0})
  issues_error [] = ok tt
  issues_error (issue ∷ issues) = err (validation (issue ∷ issues))

  abbrev validated : Result (List ValidationIssue) → Result (Unit {0})
  validated (ok issues) = issues_error issues
  validated (err e) = err (plain "error validating with JSON Schemas")
  validated (panicked m) = panicked m

  -- validateThingDescription and the tests that follow each of its calls
  unfoldable pub validate : ThingDescription → Result (Unit {0})
  validate td = validated (validate_against_schemas lib td schemas)

  -- `add` from its validation on, when the Thing Description has its id.
  unfoldable pub add_with_id : String → ThingDescription → Time → Method String
  add_with_id id td now = do
    lift (validate td)
    tr ← lift (thing_registration lib.rfc td)
    let stamped = stamp (some now) tr now td
    stores (Storage.add lib L id stamped)
    spawn (creation stamped)
    pure id

  unfoldable pub add : ThingDescription → Time → String → Method String
  unfolding add_with_id
  add td now uuid =
      let id = as_text (get key_thing_id td) in
      add_with_id (id_or_urn uuid id) (with_id uuid id td) now

  unfoldable pub get_td : String → Method ThingDescription
  get_td id = stores (Storage.get lib L id)

  -- From the reading of the clock on, `update` and `patch` go the same way.
  unfoldable pub replace : String → ThingDescription → ThingDescription → Time → Method (Unit {0})
  replace id old td now = do
    old_tr ← lift (thing_registration lib.rfc old)
    tr ← lift (thing_registration lib.rfc td)
    -- a nil `oldTR` is dereferenced
    created ← lift (elim old_tr [ none ↦ panicked "nil pointer" | some r ↦ ok r.created ])
    let stamped = stamp created tr now td
    stores (Storage.update lib L id stamped)
    spawn (change old stamped)

  unfoldable pub update : String → ThingDescription → Time → Method (Unit {0})
  update id td now = do
    old ← stores (Storage.get lib L id)
    lift (validate td)
    replace id old td now

  -- The patch is the value of its map, which is null if the map is nil.
  unfoldable pub patch : String → Value → Time → Method (Unit {0})
  patch id sent now = do
    old ← stores (Storage.get lib L id)
    old_bytes ← lift (or_json_error (marshal lib.rfc (object old)))
    patch_bytes ← lift (or_json_error (marshal lib.rfc sent))
    new_bytes ← lift (io (lib.merge_patch old_bytes patch_bytes))
    merged ← lift (or_json_error (unmarshal_map new_bytes))
    lift (validate merged)
    replace id old merged now

  unfoldable pub delete : String → Method (Unit {0})
  delete id = do
    old ← stores (Storage.get lib L id)
    stores (Storage.delete lib L id)
    spawn (deletion old)

  unfoldable pub list : ℕ → ℕ → Method (List ThingDescription × ℕ)
  list page per_page = stores (Storage.list lib L page per_page)

  -- The loop of `listAll` from page p on, with the items so far. The fuel bounds its rounds:
  -- Catalog/Controller/Listing shows how much is enough.
  unfoldable pub list_pages : ℕ → ℕ → List ThingDescription → Method (List ThingDescription × ℕ)
  list_pages zero p items = lift (panicked "out of fuel")
  list_pages (suc n) p items = do
    page ← stores (Storage.list lib L p max_per_page)
    let rest = list_pages n (p + 1) (items ++ page.0)
    if leb page.1 (p * max_per_page) then pure (items ++ page.0, page.1) else rest

  unfoldable pub list_all : ℕ → Method (List ThingDescription × ℕ)
  unfolding list_pages
  list_all fuel = list_pages fuel 1 []

  unfoldable pub list_all_bytes : Method Bytes
  list_all_bytes = stores (Storage.list_all_bytes lib L)

  unfoldable pub total : Method ℕ
  total = stores (Storage.total lib L)

  unfoldable pub iterate_bytes : (ℕ → Bool) → Controller L → List Bytes
  iterate_bytes cancelled c = Storage.iterate_bytes lib L cancelled c.storage
