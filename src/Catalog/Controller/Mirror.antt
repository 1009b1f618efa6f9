-- ===== src/Catalog/Controller/Mirror.antt =====
-- What the listeners can make of what they are told: a map from ids to Thing Descriptions that is
-- brought up to date by each creation, change and deletion shows what the directory shows.
pub mod Following
use thing_directory.Common.{
  ◌≡◌, refl, sym, ap, ◌∙◌, inl, inr, arith, Bool, true, false, String, Option, none, some, List, [],
  ◌∷◌, ◌++◌, ◌==◌, eq_iff, eq_refl, Bool-cases, if◌then◌else◌, Option-cases,
}
use mathlib.Core.Path.{subst}
use mathlib.Core.List.{append-nil, append_assoc}
use thing_directory.Common.Order.{text_order}
use thing_directory.Common.SortedMap
use thing_directory.Json.Print.{print}
use thing_directory.Common.SortedMap.{All-lookup}
use thing_directory.Time.{Time}
use thing_directory.Wot.{ThingRegistration, key_thing_id}
use thing_directory.Errors.{Result, ok, err, is_ok, Result-cases}
use thing_directory.Json.{ThingDescription, get, as_text, text, object}
use thing_directory.Json.Decoded.{unmarshal_map-IsJsonMap}
use thing_directory.Json.Maps.{IsJsonMap-IsMap}
use thing_directory.Json.RoundTrip.{IsMap, plain_fields}
use thing_directory.LevelDb.{LevelDb, IsFaultless}
use thing_directory.Libraries.{Libraries}
use thing_directory.Catalog.Storage
use thing_directory.Catalog.Storage.{not_found_error}
use thing_directory.Catalog.Storage.Crud.{
  entries, stored, get-decoded, get-state, add-Added, update-Updated,
}
use thing_directory.Catalog.Events.{Job, creation, change, deletion}
use thing_directory.Catalog.Stored.{
  IsCatalog, IsStored, stamp-IsMap, with_id-IsMap, get-with_id, get_id-stamp,
}
use thing_directory.Catalog.Stored.Preservation.{
  add-IsCatalog, update-IsCatalog, patch-IsCatalog, delete-IsCatalog,
}
use thing_directory.Catalog.Controller.{
  Controller, add, add_with_id, update, patch, replace, delete, validate, stamp, with_id, id_or_urn,
}
use thing_directory.Catalog.Controller.Effects.{
  Idle, Merges, update-cases, patch-replace, patch-cases,
}
use thing_directory.Catalog.Controller.Failures.{
  add-Idle, update-Idle, patch-Idle, replace-Idle, delete-Idle,
}
use thing_directory.Catalog.Controller.Outcomes.{add-Created, replace-Replaced}
use thing_directory.Catalog.Controller.RoundTrip.{gets-written, gets-others, get-delete}
use thing_directory.Catalog.Controller.Specification.{
  Call, adding, updating, patching, removing, View, new_id, named,
}
use thing_directory.Catalog.Controller.Refinement.{view, view_storage, perform, perform_all}

module _ (lib : Libraries) where
  -- One entry of the map is replaced, under the id of a Thing Description if it has one.
  abbrev pub fill : Option String → (String → Result ThingDescription) → View → View
  fill none entry v j = v j
  fill (some id) entry v j = if id == j then entry j else v j

  abbrev pub key_of : ThingDescription → Option String
  key_of td = as_text (get key_thing_id td)

  abbrev pub told : Job → View → View
  told (creation td) v = fill (key_of td) (λ j. ok (plain_fields lib.rfc td)) v
  told (change old td) v = fill (key_of td) (λ j. ok (plain_fields lib.rfc td)) v
  told (deletion old) v = fill (key_of old) (λ j. err (not_found_error j)) v

  abbrev pub told_all : List Job → View → View
  told_all [] v = v
  told_all (job ∷ jobs) v = told_all jobs (told job v)

  fill-eq :
      (o : Option String) (entry : String → Result ThingDescription) (v w : View)
      → ((j : String) → v j ≡ w j)
      → (j : String) → fill o entry v j ≡ fill o entry w j
  fill-eq none entry v w h j = h j
  fill-eq (some id) entry v w h j = ap (λ r. if id == j then entry j else r) (h j)

  told-eq :
      (job : Job) (v w : View)
      → ((j : String) → v j ≡ w j)
      → (j : String) → told job v j ≡ told job w j
  told-eq (creation td) v w h = fill-eq (key_of td) (λ j. ok (plain_fields lib.rfc td)) v w h
  told-eq (change old td) v w h = fill-eq (key_of td) (λ j. ok (plain_fields lib.rfc td)) v w h
  told-eq (deletion old) v w h = fill-eq (key_of old) (λ j. err (not_found_error j)) v w h

  pub told_all-eq :
      (jobs : List Job) (v w : View)
      → ((j : String) → v j ≡ w j)
      → (j : String) → told_all jobs v j ≡ told_all jobs w j
  told_all-eq [] v w h = h
  told_all-eq (job ∷ jobs) v w h = told_all-eq jobs (told job v) (told job w) (told-eq job v w h)

  pub told_all-append :
      (jobs more : List Job) (v : View) (j : String)
      → told_all (jobs ++ more) v j ≡ told_all more (told_all jobs v) j
  told_all-append [] more v j = refl
  told_all-append (job ∷ jobs) more v j = told_all-append jobs more (told job v) j

module _ (lib : Libraries) (L : LevelDb String) (sure : IsFaultless L)
    (schemas : List lib.Schema) where
  -- The goroutines started between two states, and what they tell.
  abbrev pub Mirrors : Controller L → Controller L → Type 0
  Mirrors c d =
      (jobs : List Job) × (d.spawned ≡ c.spawned ++ jobs)
      × ((j : String)
          → view lib schemas L sure d j ≡ told_all lib jobs (view lib schemas L sure c) j)

  pub Idle-Mirrors : (id : String) (c d : Controller L) → Idle lib L schemas id c d → Mirrors c d
  Idle-Mirrors id c d (storage, spawned) =
      ([], spawned ∙ sym (append-nil _), view_storage lib schemas L sure c d storage)

  -- A Thing Description is stored under its id, and the listeners are told of it.
  pub written-Mirrors :
      (id : String) (td : ThingDescription) (job : Job) (c d : Controller L)
      → IsMap td
      → entries L d.storage
        ≡ SortedMap.insert id (print lib.rfc (object td) []) (entries L c.storage)
      → ((v : View) (j : String)
          → told lib job v j ≡ (if id == j then ok (plain_fields lib.rfc td) else v j))
      → d.spawned ≡ c.spawned ++ job ∷ []
      → Mirrors c d
  written-Mirrors id td job c d m written tells spawned = (job ∷ [], spawned, shows)
    where
      shows :
          (j : String) → view lib schemas L sure d j ≡ told lib job (view lib schemas L sure c) j
      shows j = elim (Bool-cases (id == j)) [
        | inl same ↦
            subst (λ i. view lib schemas L sure d i ≡ told lib job (view lib schemas L sure c) i)
              ((eq_iff id j).0 same)
              (gets-written lib L sure schemas id td m c d written
                ∙ sym (tells (view lib schemas L sure c) id ∙ rw (eq_refl id) refl))
        | inr other ↦
            gets-others lib L sure schemas id td m c d written j other
            ∙ sym (tells (view lib schemas L sure c) j ∙ rw other refl)
      ]

  pub key_of-text :
      (td : ThingDescription) (id : String)
      → get key_thing_id td ≡ some (text id)
      → key_of lib td ≡ some id
  key_of-text td id e = rw e refl
