-- ===== src/Catalog/Controller/Effects.antt =====
-- What each operation of the controller does to the storage and to its listeners: it makes the one
-- call of the storage that it is named for, or none, and starts its goroutine only when that call
-- returns.
use thing_directory.Common.{
  ◌≡◌, ap, false, ◌⊎◌, inl, inr, String, Option, some, none, List, arith, Option-cases,
}
use thing_directory.Common.Order.{text_order}
use thing_directory.Time.{Time}
use thing_directory.Wot.{ThingRegistration}
use thing_directory.Errors.{io-done, ok, is_ok, Result-cases, done, io}
use thing_directory.Json.{Value, ThingDescription, object, Bytes}
use thing_directory.Json.Print.{marshal}
use thing_directory.Json.Parse.{unmarshal_map}
use thing_directory.LevelDb.{LevelDb}
use thing_directory.Libraries.{Libraries}
use thing_directory.Catalog.Registration.{thing_registration}
use thing_directory.Catalog.Storage
use thing_directory.Catalog.Storage.{LevelDbStorage}
use thing_directory.Catalog.Storage.Crud.{get-state}
use thing_directory.Catalog.Controller.{
  Controller, add_with_id, update, replace, delete, patch, validate, stamp,
}

module _ (lib : Libraries) (L : LevelDb String) (schemas : List lib.Schema) (id : String)
    (c : Controller L) where
  -- Nothing was written and no goroutine started.
  abbrev pub Idle : Controller L → Type 0
  Idle d = (d.storage ≡ c.storage) × (d.spawned ≡ c.spawned)

  abbrev pub Adds : ThingDescription → Time → Controller L → Type 0
  Adds td now d =
      Idle d
      ⊎ ((tr : Option ThingRegistration) × (thing_registration lib.rfc td ≡ ok tr)
          × (d.storage ≡ (Storage.add lib L id (stamp (some now) tr now td) c.storage).1))

  pub add-Adds :
      (td : ThingDescription) (now : Time) → Adds td now (add_with_id lib L schemas id td now c).1
  unfolding add_with_id
  add-Adds td now = elim (Result-cases (thing_registration lib.rfc td)) [
    | inr fails ↦ inl (ground arith)
    | inl (tr, e) ↦ elim (Result-cases (validate lib L schemas td)) [
      | inr fails ↦ inl (ground arith)
      | inl (_, v) ↦ inr (tr, e, ground arith)
    ]
  ]

  abbrev pub Replaces : ThingDescription → Time → Controller L → Type 0
  Replaces td now d =
      Idle d
      ⊎ ((created : Option Time) × (tr : Option ThingRegistration) × (thing_registration lib.rfc td
            ≡ ok tr)
          × (d.storage ≡ (Storage.update lib L id (stamp created tr now td) c.storage).1))

  pub replace-Replaces :
      (old td : ThingDescription) (now : Time)
      → Replaces td now (replace lib L schemas id old td now c).1
  unfolding replace
  replace-Replaces old td now = elim (Result-cases (thing_registration lib.rfc td)) [
    | inr fails ↦ inl (ground arith)
    | inl (tr, e) ↦ elim (Result-cases (thing_registration lib.rfc old)) [
      | inr fails ↦ inl (ground arith)
      | inl (none, o) ↦ inl (ground arith)
      | inl (some r, o) ↦ inr (r.created, tr, e, ground arith)
    ]
  ]

  -- Behind a call of the storage's `get` the controller is as it was.
  got : record c { storage = (Storage.get lib L id c.storage).1 } ≡ c
  got = ap (λ (s : LevelDbStorage L). record c { storage = s }) (get-state lib L c.storage id)

  pub update-replace :
      (old td : ThingDescription) (now : Time) (u : Unit {0})
      → (Storage.get lib L id c.storage).0 ≡ ok old
      → validate lib L schemas td ≡ ok u
      → update lib L schemas id td now c ≡ replace lib L schemas id old td now c
  unfolding update
  update-replace old td now u e v = rw (e, v) (ap (replace lib L schemas id old td now) got)

  -- An update goes on as a replacement, or fails and does nothing.
  pub update-cases :
      (td : ThingDescription) (now : Time)
      → (Idle (update lib L schemas id td now c).1
          × (is_ok (update lib L schemas id td now c).0 ≡ false))
        ⊎ ((old : ThingDescription) × ((Storage.get lib L id c.storage).0 ≡ ok old)
            × (update lib L schemas id td now c ≡ replace lib L schemas id old td now c))
  unfolding update
  update-cases td now = elim (Result-cases (Storage.get lib L id c.storage).0) [
    | inr fails ↦ inl (ground (arith, get-state lib L c.storage id))
    | inl (old, e) ↦ elim (Result-cases (validate lib L schemas td)) [
      | inr fails ↦ inl (ground (arith, get-state lib L c.storage id))
      | inl (u, v) ↦ inr (old, e, update-replace old td now u e v)
    ]
  ]

  pub update-Replaces :
      (td : ThingDescription) (now : Time) → Replaces td now (update lib L schemas id td now c).1
  update-Replaces td now = elim (update-cases td now) [
    | inl (idle, failed) ↦ inl idle
    | inr (old, found, same) ↦ rw same (replace-Replaces old td now)
  ]

  -- The Thing Description that a patch leads to.
  pub record Merges (old : ThingDescription) (sent : Value) (merged : ThingDescription)
      : Type 0 where
    pub old_bytes : Bytes
    pub patch_bytes : Bytes
    pub new_bytes : Bytes
    pub found : (Storage.get lib L id c.storage).0 ≡ ok old
    pub marshalled_old : marshal lib.rfc (object old) ≡ some old_bytes
    pub marshalled_patch : marshal lib.rfc sent ≡ some patch_bytes
    pub merged_bytes : lib.merge_patch old_bytes patch_bytes ≡ done new_bytes
    pub reads : unmarshal_map new_bytes ≡ some merged
    pub valid : validate lib L schemas merged ≡ ok tt

  -- With the patch merged, `patch` is the rest of an update.
  pub patch-replace :
      (old : ThingDescription) (sent : Value) (merged : ThingDescription) (now : Time)
      → Merges old sent merged
      → patch lib L schemas id sent now c ≡ replace lib L schemas id old merged now c
  unfolding patch
  patch-replace old sent merged now m =
      rw (m.found, m.marshalled_old, m.marshalled_patch, m.merged_bytes, m.reads, m.valid)
        (ap (replace lib L schemas id old merged now) got)

  -- A patch is merged, or fails and does nothing.
  pub patch-cases :
      (sent : Value) (now : Time)
      → (Idle (patch lib L schemas id sent now c).1
          × (is_ok (patch lib L schemas id sent now c).0 ≡ false))
        ⊎ ((old : ThingDescription) × (merged : ThingDescription) × Merges old sent merged)
  unfolding patch
  patch-cases sent now = elim (Result-cases (Storage.get lib L id c.storage).0) [
    | inr fails ↦ inl (ground (arith, get-state lib L c.storage id))
    | inl (old, found) ↦ elim (Option-cases (marshal lib.rfc (object old))) [
      | inl fails ↦ inl (ground (arith, get-state lib L c.storage id))
      | inr (old_bytes, o) ↦ elim (Option-cases (marshal lib.rfc sent)) [
        | inl fails ↦ inl (ground (arith, get-state lib L c.storage id))
        | inr (patch_bytes, p) ↦ elim (Result-cases (io (lib.merge_patch old_bytes patch_bytes))) [
          | inr fails ↦ inl (ground (arith, get-state lib L c.storage id))
          | inl (new_bytes, n) ↦ elim (Option-cases (unmarshal_map new_bytes)) [
            | inl fails ↦ inl (ground (arith, get-state lib L c.storage id))
            | inr (merged, r) ↦ elim (Result-cases (validate lib L schemas merged)) [
              | inr fails ↦ inl (ground (arith, get-state lib L c.storage id))
              | inl (u, v) ↦ inr (
                old,
                merged,
                record {
                  old_bytes = old_bytes;
                  patch_bytes = patch_bytes;
                  new_bytes = new_bytes;
                  found = found;
                  marshalled_old = o;
                  marshalled_patch = p;
                  merged_bytes = io-done (lib.merge_patch old_bytes patch_bytes) new_bytes n;
                  reads = r;
                  valid = v;
                },
              )
            ]
          ]
        ]
      ]
    ]
  ]

  pub delete-effect :
      Idle (delete lib L schemas id c).1
      ⊎ ((delete lib L schemas id c).1.storage ≡ (Storage.delete lib L id c.storage).1)
  unfolding delete
  delete-effect = elim (Result-cases (Storage.get lib L id c.storage).0) [
    | inr fails ↦ inl (ground (arith, get-state lib L c.storage id))
    | inl (old, e) ↦ inr (ground (arith, get-state lib L c.storage id))
  ]
