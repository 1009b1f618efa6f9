-- ===== src/Catalog/Controller/RoundTrip.antt =====
-- What `get` returns after an operation that returned without an error, over a store that does not fail.
use thing_directory.Common.{
  ◌≡◌, sym, ap, ◌∙◌, inl, inr, false, String, Option, some, List, [], arith, ◌==◌, eq_iff,
  if◌then◌else◌,
}
use thing_directory.Common.Order.{text_order}
use thing_directory.Common.SortedMap
use thing_directory.Common.SortedMap.{lookup-insert}
use thing_directory.Time.{Time}
use thing_directory.Wot.{ThingRegistration, key_thing_id}
use thing_directory.Errors.{Result, ok, err, Result-cases}
use thing_directory.Json.{Value, ThingDescription, get, as_text, object}
use thing_directory.Json.Print.{print}
use thing_directory.Json.RoundTrip.{IsMap, plain_fields}
use thing_directory.Json.Maps.{unmarshal_map-print, IsJsonMap-IsMap}
use thing_directory.Json.Decoded.{unmarshal_map-IsJsonMap}
use thing_directory.LevelDb.{LevelDb, IsFaultless}
use thing_directory.Libraries.{Libraries}
use thing_directory.Catalog.Registration.{thing_registration}
use thing_directory.Catalog.Storage
use thing_directory.Catalog.Storage.{LevelDbStorage, not_found_error}
use thing_directory.Catalog.Storage.Crud.{
  entries, stored, decoded, get-decoded, add-Added, update-Updated, stored-delete, get-state,
}
use thing_directory.Catalog.Controller.{
  Controller, add, add_with_id, get_td, update, replace, patch, delete, stamp, with_id, id_or_urn,
}
use thing_directory.Catalog.Controller.Stamping.{promised, stamp-promised}
use thing_directory.Catalog.Controller.Effects.{update-cases, Merges, patch-cases, patch-replace}
use thing_directory.Catalog.Controller.Outcomes.{add-Created, replace-Replaced}
use thing_directory.Catalog.Stored.{stamp-IsMap, with_id-IsMap}

module _ (lib : Libraries) (L : LevelDb String) (sure : IsFaultless L)
    (schemas : List lib.Schema) where
  abbrev pub gets : String → Controller L → Result ThingDescription
  gets id c = (get_td lib L schemas id c).0

  pub gets-decoded :
      (id : String) (c : Controller L)
      → gets id c ≡ decoded lib L c.storage id (stored L c.storage id)
  unfolding get_td
  gets-decoded id c = get-decoded lib L c.storage id sure

  -- The directory after an insertion under `id` of the text of a Thing Description.
  module _ (id : String) (td : ThingDescription) (m : IsMap td) (c d : Controller L)
      (written : entries L d.storage
        ≡ SortedMap.insert id (print lib.rfc (object td) []) (entries L c.storage)) where
    stored-written :
        (j : String)
        → stored L d.storage j
          ≡ (if id == j then some (print lib.rfc (object td) []) else stored L c.storage j)
    stored-written j =
        rw written (lookup-insert id j (print lib.rfc (object td) []) (entries L c.storage))

    pub gets-written : gets id d ≡ ok (plain_fields lib.rfc td)
    gets-written =
        gets-decoded id d
        ∙ ground (arith, stored-written id, eq_iff id id, unmarshal_map-print lib.rfc td m)

    pub gets-others : (j : String) → (id == j) ≡ false → gets j d ≡ gets j c
    gets-others j other = gets-decoded j d ∙ ground (arith, stored-written j, gets-decoded j c)

  pub get-add :
      (c : Controller L) (td : ThingDescription) (now : Time) (uuid id : String)
      → IsMap td
      → (add lib L schemas td now uuid c).0 ≡ ok id
      → (tr : Option ThingRegistration) × (thing_registration lib.rfc
            (with_id uuid (as_text (get key_thing_id td)) td)
          ≡ ok tr)
        × (id ≡ id_or_urn uuid (as_text (get key_thing_id td)))
        × (gets id c ≡ err (not_found_error id))
        × (gets id (add lib L schemas td now uuid c).1
            ≡ ok (
                plain_fields lib.rfc
                  (promised (some now) tr now (with_id uuid (as_text (get key_thing_id td)) td))))
        × ((j : String) → (id == j) ≡ false → gets j (add lib L schemas td now uuid c).1 ≡ gets j c)
  unfolding add
  get-add c td now uuid id m h =
      let o = as_text (get key_thing_id td) in
      let new = with_id uuid o td in
      let (named, a) = add-Created lib L schemas (id_or_urn uuid o) c new now id h in
      let stamped = stamp (some now) a.tr now new in
      let w = add-Added lib L c.storage (id_or_urn uuid o) stamped a.stores in
      let n = stamp-IsMap lib.rfc (some now) a.tr now new (with_id-IsMap uuid td o m) in
      let d = (add_with_id lib L schemas (id_or_urn uuid o) new now c).1 in
      let e = ap (entries L) a.storage ∙ w.written in
      (
        a.tr,
        a.registered,
        named,
        rw named (
            gets-decoded (id_or_urn uuid o) c
            ∙ ap (decoded lib L c.storage (id_or_urn uuid o)) w.fresh),
        rw (← stamp-promised (some now) a.tr now new)
            (rw named (gets-written (id_or_urn uuid o) stamped n c d e)),
        rw named (gets-others (id_or_urn uuid o) stamped n c d e),
      )

  -- What is found behind a call that ends in a `replace` which returns.
  abbrev pub Replaced :
      String → ThingDescription → ThingDescription → Time → Controller L → Controller L → Type 0
  Replaced id old td now c d =
      (before : ThingRegistration) × (tr : Option ThingRegistration) × (gets id c ≡ ok old)
      × (thing_registration lib.rfc old ≡ ok (some before))
      × (thing_registration lib.rfc td ≡ ok tr)
      × (gets id d ≡ ok (plain_fields lib.rfc (promised before.created tr now td)))
      × ((j : String) → (id == j) ≡ false → gets j d ≡ gets j c)

  gets-replace :
      (id : String) (old td : ThingDescription) (now : Time) (c : Controller L)
      (p : Result (Unit {0}) × Controller L)
      → IsMap td
      → (Storage.get lib L id c.storage).0 ≡ ok old
      → p ≡ replace lib L schemas id old td now c
      → p.0 ≡ ok tt
      → Replaced id old td now c p.1
  unfolding get_td
  gets-replace id old td now c p m found same h =
      let r = replace-Replaced lib L schemas id c old td now (sym (ap (λ q. q.0) same) ∙ h) in
      let stamped = stamp r.before.created r.tr now td in
      let w = update-Updated lib L c.storage id stamped r.stores in
      let n = stamp-IsMap lib.rfc r.before.created r.tr now td m in
      let e = ap (λ q. entries L q.1.storage) same ∙ ap (entries L) r.storage ∙ w.written in
      (
        r.before,
        r.tr,
        found,
        r.was_registered,
        r.registered,
        rw (← stamp-promised r.before.created r.tr now td) (gets-written id stamped n c p.1 e),
        gets-others id stamped n c p.1 e,
      )

  pub get-update :
      (c : Controller L) (id : String) (td : ThingDescription) (now : Time)
      → IsMap td
      → (update lib L schemas id td now c).0 ≡ ok tt
      → (old : ThingDescription) × (before : ThingRegistration) × (tr : Option ThingRegistration)
        × (gets id c ≡ ok old)
        × (thing_registration lib.rfc old ≡ ok (some before))
        × (thing_registration lib.rfc td ≡ ok tr)
        × (gets id (update lib L schemas id td now c).1
            ≡ ok (plain_fields lib.rfc (promised before.created tr now td)))
        × ((j : String)
            → (id == j) ≡ false
            → gets j (update lib L schemas id td now c).1 ≡ gets j c)
  get-update c id td now m h = elim (update-cases lib L schemas id c td now) [
    | inl (idle, failed) ↦ absurd (ground arith)
    | inr (old, at, same) ↦
        let (before, tr, found, was, registered, shows, others) =
          gets-replace id old td now c (update lib L schemas id td now c) m at same h in
        (old, before, tr, found, was, registered, shows, others)
  ]

  -- Over a store that does not fail, a successful `patch` found an old Thing Description with a
  -- registration, and merged the patch into it; `get` of the id now returns the merged Thing
  -- Description, stamped with the creation time of the old one, and `get` of each other id returns
  -- what it did.
  pub get-patch :
      (c : Controller L) (id : String) (sent : Value) (now : Time)
      → (patch lib L schemas id sent now c).0 ≡ ok tt
      → (old : ThingDescription) × (merged : ThingDescription) × Merges lib L schemas id c old sent
          merged
        × Replaced id old merged now c (patch lib L schemas id sent now c).1
  get-patch c id sent now h = elim (patch-cases lib L schemas id c sent now) [
    | inl (idle, failed) ↦ absurd (ground arith)
    | inr (old, merged, w) ↦ (
      old,
      merged,
      w,
      gets-replace id old merged now c (patch lib L schemas id sent now c)
          (IsJsonMap-IsMap merged (unmarshal_map-IsJsonMap w.new_bytes merged w.reads)) w.found
          (patch-replace lib L schemas id c old sent merged now w) h,
    )
  ]

  -- Over a store that does not fail, after a successful `delete` the id is not found, and `get` of
  -- each other id returns what it did.
  pub get-delete :
      (c : Controller L) (id j : String)
      → (delete lib L schemas id c).0 ≡ ok tt
      → gets j (delete lib L schemas id c).1
        ≡ (if id == j then err (not_found_error j) else gets j c)
  unfolding delete
  get-delete c id j h = elim (Result-cases (Storage.get lib L id c.storage).0) [
    | inr fails ↦ absurd (ground arith)
    | inl (old, found) ↦
        gets-decoded j (delete lib L schemas id c).1
        ∙ ground (
          arith,
          gets-decoded j c,
          found,
          get-state lib L c.storage id,
          stored-delete lib L sure c.storage id j,
        )
  ]
