-- ===== src/Catalog/Controller/Failures.antt =====
-- An operation of the controller that does not return changes nothing.
use thing_directory.Common.{◌≡◌, inl, inr, false, String, some, none, List, arith}
use thing_directory.Common.Order.{text_order}
use thing_directory.Time.{Time}
use thing_directory.Errors.{is_ok, not-ok, Result-cases}
use thing_directory.Json.{Value, ThingDescription}
use thing_directory.LevelDb.{LevelDb}
use thing_directory.Libraries.{Libraries}
use thing_directory.Catalog.Registration.{thing_registration}
use thing_directory.Catalog.Storage
use thing_directory.Catalog.Storage.Crud.{add-error, update-error, delete-error, get-state}
use thing_directory.Catalog.Controller.{
  Controller, add_with_id, update, replace, delete, patch, validate, stamp,
}
use thing_directory.Catalog.Controller.Effects.{Idle, update-cases, patch-replace, patch-cases}

module _ (lib : Libraries) (L : LevelDb String) (schemas : List lib.Schema) (id : String)
    (c : Controller L) where
  pub add-Idle :
      (td : ThingDescription) (now : Time)
      → is_ok (add_with_id lib L schemas id td now c).0 ≡ false
      → Idle lib L schemas id c (add_with_id lib L schemas id td now c).1
  unfolding add_with_id
  add-Idle td now h = elim (Result-cases (validate lib L schemas td)) [
    | inr fails ↦ ground arith
    | inl (u, v) ↦ elim (Result-cases (thing_registration lib.rfc td)) [
      | inr fails ↦ ground arith
      | inl (tr, e) ↦
          let stamped = stamp (some now) tr now td in
          elim (Result-cases (Storage.add lib L id stamped c.storage).0) [
            | inl (w, a) ↦ absurd (ground arith)
            | inr fails ↦
                let same = add-error lib L c.storage id stamped (not-ok _ fails) in ground arith
          ]
    ]
  ]

  pub replace-Idle :
      (old td : ThingDescription) (now : Time)
      → is_ok (replace lib L schemas id old td now c).0 ≡ false
      → Idle lib L schemas id c (replace lib L schemas id old td now c).1
  unfolding replace
  replace-Idle old td now h = elim (Result-cases (thing_registration lib.rfc old)) [
    | inr fails ↦ ground arith
    | inl (none, o) ↦ elim (Result-cases (thing_registration lib.rfc td)) [
      | inr fails ↦ ground arith
      | inl (tr, e) ↦ ground arith
    ]
    | inl (some r, o) ↦ elim (Result-cases (thing_registration lib.rfc td)) [
      | inr fails ↦ ground arith
      | inl (tr, e) ↦
          let stamped = stamp r.created tr now td in
          elim (Result-cases (Storage.update lib L id stamped c.storage).0) [
            | inl (w, a) ↦ absurd (ground arith)
            | inr fails ↦
                let same = update-error lib L c.storage id stamped (not-ok _ fails) in ground arith
          ]
    ]
  ]

  pub update-Idle :
      (td : ThingDescription) (now : Time)
      → is_ok (update lib L schemas id td now c).0 ≡ false
      → Idle lib L schemas id c (update lib L schemas id td now c).1
  update-Idle td now h = elim (update-cases lib L schemas id c td now) [
    | inl (idle, failed) ↦ idle
    | inr (old, found, same) ↦ rw same (replace-Idle old td now (rw (← same) h))
  ]

  pub patch-Idle :
      (sent : Value) (now : Time)
      → is_ok (patch lib L schemas id sent now c).0 ≡ false
      → Idle lib L schemas id c (patch lib L schemas id sent now c).1
  patch-Idle sent now h = elim (patch-cases lib L schemas id c sent now) [
    | inl (idle, failed) ↦ idle
    | inr (old, merged, m) ↦
        let same = patch-replace lib L schemas id c old sent merged now m in
        rw same (replace-Idle old merged now (rw (← same) h))
  ]

  pub delete-Idle :
      is_ok (delete lib L schemas id c).0 ≡ false
      → Idle lib L schemas id c (delete lib L schemas id c).1
  unfolding delete
  delete-Idle h = elim (Result-cases (Storage.get lib L id c.storage).0) [
    | inr fails ↦ ground (arith, get-state lib L c.storage id)
    | inl (old, e) ↦ elim (Result-cases (Storage.delete lib L id c.storage).0) [
      | inl (w, a) ↦ absurd (ground (arith, get-state lib L c.storage id))
      | inr fails ↦
          let same = delete-error lib L c.storage id (not-ok _ fails) in
          ground (arith, get-state lib L c.storage id)
    ]
  ]

  -- An `add` under a given id, an `update`, a `patch` or a `delete` of the controller that ends in
  -- an error or a panic leaves the storage as it was and starts no goroutine, whatever the
  -- libraries and the store do.
  pub fails-Idle :
      (td : ThingDescription) (sent : Value) (now : Time)
      → (is_ok (add_with_id lib L schemas id td now c).0 ≡ false
          → Idle lib L schemas id c (add_with_id lib L schemas id td now c).1)
        × (is_ok (update lib L schemas id td now c).0 ≡ false
            → Idle lib L schemas id c (update lib L schemas id td now c).1)
        × (is_ok (patch lib L schemas id sent now c).0 ≡ false
            → Idle lib L schemas id c (patch lib L schemas id sent now c).1)
        × (is_ok (delete lib L schemas id c).0 ≡ false
            → Idle lib L schemas id c (delete lib L schemas id c).1)
  fails-Idle td sent now = (add-Idle td now, update-Idle td now, patch-Idle sent now, delete-Idle)
