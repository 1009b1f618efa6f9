-- ===== src/Catalog/Controller/Outcomes.antt =====
-- What has happened when an operation of the controller returns without an error.
use thing_directory.Common.{
  true, false, ◌==◌, ◌≡◌, inl, inr, String, Option, some, none, List, [], ◌∷◌, ◌++◌, arith,
}
use thing_directory.Common.Order.{text_order}
use thing_directory.Time.{Time}
use thing_directory.Wot.{ThingRegistration}
use thing_directory.Errors.{ok, Result-cases}
use thing_directory.Json.{ThingDescription}
use thing_directory.Json.{object}
use thing_directory.Json.Print.{is_printable}
use thing_directory.LevelDb.{LevelDb, IsFaultless}
use thing_directory.Catalog.Storage.Results.{add-result}
use thing_directory.Libraries.{Libraries}
use thing_directory.Catalog.Registration.{thing_registration}
use thing_directory.Catalog.Storage
use thing_directory.Catalog.Storage.{LevelDbStorage}
use thing_directory.Catalog.Storage.Crud.{stored}
use thing_directory.Catalog.Events.{creation, change}
use thing_directory.Catalog.Controller.{Controller, add_with_id, replace, validate, stamp}

module _ (lib : Libraries) (L : LevelDb String) (schemas : List lib.Schema) (id : String)
    (c : Controller L) where
  -- A Thing Description was valid, was stamped and stored, and its listeners are called.
  pub record Created (td : ThingDescription) (now : Time) (d : Controller L) : Type 0 where
    pub tr : Option ThingRegistration
    pub registered : thing_registration lib.rfc td ≡ ok tr
    pub valid : validate lib L schemas td ≡ ok tt
    pub stores : (Storage.add lib L id (stamp (some now) tr now td) c.storage).0 ≡ ok tt
    pub storage : d.storage ≡ (Storage.add lib L id (stamp (some now) tr now td) c.storage).1
    pub spawned : d.spawned ≡ c.spawned ++ creation (stamp (some now) tr now td) ∷ []

  -- An `add` that returns an id returns the given one, and was of a valid Thing Description with a
  -- readable registration, which it stamped and stored, and it started the call of the listeners'
  -- creation handler with just that Thing Description, once.
  pub add-Created :
      (td : ThingDescription) (now : Time) (j : String)
      → (add_with_id lib L schemas id td now c).0 ≡ ok j
      → (j ≡ id) × Created td now (add_with_id lib L schemas id td now c).1
  unfolding add_with_id
  add-Created td now j h = elim (Result-cases (validate lib L schemas td)) [
    | inr fails ↦ absurd (ground arith)
    | inl (u, v) ↦ elim (Result-cases (thing_registration lib.rfc td)) [
      | inr fails ↦ absurd (ground arith)
      | inl (tr, e) ↦
          elim (Result-cases (Storage.add lib L id (stamp (some now) tr now td) c.storage).0) [
            | inr fails ↦ absurd (ground arith)
            | inl (w, a) ↦ (
              ground arith,
              record {
                tr = tr;
                registered = e;
                valid = v;
                stores = a;
                storage = ground arith;
                spawned = ground arith;
              },
            )
          ]
    ]
  ]

  pub record Replaced (old td : ThingDescription) (now : Time) (d : Controller L) : Type 0 where
    pub before : ThingRegistration
    pub tr : Option ThingRegistration
    pub was_registered : thing_registration lib.rfc old ≡ ok (some before)
    pub registered : thing_registration lib.rfc td ≡ ok tr
    pub stores : (Storage.update lib L id (stamp before.created tr now td) c.storage).0 ≡ ok tt
    pub storage : d.storage ≡ (Storage.update lib L id (stamp before.created tr now td) c.storage).1
    pub spawned : d.spawned ≡ c.spawned ++ change old (stamp before.created tr now td) ∷ []

  pub replace-Replaced :
      (old td : ThingDescription) (now : Time)
      → (replace lib L schemas id old td now c).0 ≡ ok tt
      → Replaced old td now (replace lib L schemas id old td now c).1
  unfolding replace
  replace-Replaced old td now h = elim (Result-cases (thing_registration lib.rfc old)) [
    | inr fails ↦ absurd (ground arith)
    | inl (none, o) ↦ absurd (ground arith)
    | inl (some r, o) ↦ elim (Result-cases (thing_registration lib.rfc td)) [
      | inr fails ↦ absurd (ground arith)
      | inl (tr, e) ↦
          elim (Result-cases (Storage.update lib L id (stamp r.created tr now td) c.storage).0) [
            | inr fails ↦ absurd (ground arith)
            | inl (w, a) ↦ record {
              before = r;
              tr = tr;
              was_registered = o;
              registered = e;
              stores = a;
              storage = ground arith;
              spawned = ground arith;
            }
          ]
    ]
  ]

  -- Over a store that does not fail, `add` under an id that is not empty and not taken returns the
  -- id, if the Thing Description is valid, its registration can be read, and it is JSON once it is
  -- stamped.
  pub add-succeeds :
      (td : ThingDescription) (now : Time) (tr : Option ThingRegistration)
      → IsFaultless L
      → validate lib L schemas td ≡ ok tt
      → thing_registration lib.rfc td ≡ ok tr
      → is_printable (object (stamp (some now) tr now td)) ≡ true
      → (id == "") ≡ false
      → stored L c.storage id ≡ none
      → (add_with_id lib L schemas id td now c).0 ≡ ok id
  unfolding add_with_id
  add-succeeds td now tr sure v e p named fresh =
      let a = add-result lib L sure c.storage id (stamp (some now) tr now td) in
      ground (arith, v, e, p, named, fresh, a)
