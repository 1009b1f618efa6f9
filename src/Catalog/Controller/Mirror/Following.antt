-- ===== src/Catalog/Controller/Mirror/Following.antt =====
-- Each call of the controller tells the listeners what it has changed.
use thing_directory.Common.{
  ◌≡◌, refl, sym, ap, ◌∙◌, inl, inr, arith, String, some, List, [], ◌∷◌, ◌++◌, Option-cases,
}
use mathlib.Core.List.{append-nil, append_assoc}
use thing_directory.Common.Order.{text_order}
use thing_directory.Common.SortedMap.{All-lookup}
use thing_directory.Time.{Time}
use thing_directory.Wot.{key_thing_id}
use thing_directory.Errors.{ok, err, Result-cases}
use thing_directory.Json.{Value, ThingDescription, get, as_text, text}
use thing_directory.Json.Decoded.{unmarshal_map-IsJsonMap}
use thing_directory.Json.Maps.{IsJsonMap-IsMap}
use thing_directory.Json.RoundTrip.{IsMap, plain_fields}
use thing_directory.LevelDb.{LevelDb, IsFaultless}
use thing_directory.Libraries.{Libraries}
use thing_directory.Catalog.Storage
use thing_directory.Catalog.Storage.{not_found_error}
use thing_directory.Catalog.Storage.Crud.{
  entries, stored, get-decoded, get-state, add-Added, update-Updated,
}
use thing_directory.Catalog.Events.{creation, change, deletion}
use thing_directory.Catalog.Stored.{
  IsCatalog, stamp-IsMap, with_id-IsMap, get-with_id, get_id-stamp,
}
use thing_directory.Catalog.Stored.Preservation.{
  add-IsCatalog, update-IsCatalog, patch-IsCatalog, delete-IsCatalog,
}
use thing_directory.Catalog.Controller.{
  Controller, add, add_with_id, update, patch, replace, delete, stamp,
}
use thing_directory.Catalog.Controller.Effects.{Merges, update-cases, patch-replace, patch-cases}
use thing_directory.Catalog.Controller.Failures.{add-Idle, replace-Idle, delete-Idle}
use thing_directory.Catalog.Controller.Outcomes.{add-Created, replace-Replaced}
use thing_directory.Catalog.Controller.RoundTrip.{get-delete}
use thing_directory.Catalog.Controller.Specification.{
  Call, adding, updating, patching, removing, new_id, named,
}
use thing_directory.Catalog.Controller.Refinement.{view, perform, perform_all}
use thing_directory.Catalog.Controller.Mirror.{
  fill, told_all, told_all-eq, told_all-append, Mirrors, Idle-Mirrors, written-Mirrors, key_of-text,
}

module _ (lib : Libraries) (L : LevelDb String) (sure : IsFaultless L)
    (schemas : List lib.Schema) where
  add-Mirrors :
      (td : ThingDescription) (now : Time) (uuid : String) (c : Controller L)
      → IsMap td
      → Mirrors lib L sure schemas c (add lib L schemas td now uuid c).1
  unfolding add
  add-Mirrors td now uuid c m =
      let id = new_id uuid td in
      let new = named uuid td in
      elim (Result-cases (add_with_id lib L schemas id new now c).0) [
        | inr fails ↦
            Idle-Mirrors lib L sure schemas id c _ (add-Idle lib L schemas id c new now fails)
        | inl (i, e) ↦
            let (same, a) = add-Created lib L schemas id c new now i e in
            let stamped = stamp (some now) a.tr now new in
            let w = add-Added lib L c.storage id stamped a.stores in
            let key = key_of-text lib L sure schemas stamped id (
              get_id-stamp lib.rfc (some now) a.tr now new
              ∙ get-with_id uuid td (as_text (get key_thing_id td)) refl) in
            written-Mirrors lib L sure schemas id stamped (creation stamped) c _
              (stamp-IsMap lib.rfc (some now) a.tr now new
                (with_id-IsMap uuid td (as_text (get key_thing_id td)) m))
              (ap (entries L) a.storage ∙ w.written)
              (λ v j. ap (λ o. fill lib o (λ i. ok (plain_fields lib.rfc stamped)) v j) key)
              a.spawned
      ]

  replace-Mirrors :
      (id : String) (old td : ThingDescription) (now : Time) (c : Controller L)
      → IsMap td
      → get key_thing_id td ≡ some (text id)
      → Mirrors lib L sure schemas c (replace lib L schemas id old td now c).1
  replace-Mirrors id old td now c m e =
      elim (Result-cases (replace lib L schemas id old td now c).0) [
        | inr fails ↦
            Idle-Mirrors lib L sure schemas id c _
              (replace-Idle lib L schemas id c old td now fails)
        | inl (u, h) ↦
            let r = replace-Replaced lib L schemas id c old td now h in
            let stamped = stamp r.before.created r.tr now td in
            let w = update-Updated lib L c.storage id stamped r.stores in
            let key =
              key_of-text lib L sure schemas stamped id
                (get_id-stamp lib.rfc r.before.created r.tr now td ∙ e) in
            written-Mirrors lib L sure schemas id stamped (change old stamped) c _
              (stamp-IsMap lib.rfc r.before.created r.tr now td m)
              (ap (entries L) r.storage ∙ w.written)
              (λ v j. ap (λ o. fill lib o (λ i. ok (plain_fields lib.rfc stamped)) v j) key)
              r.spawned
      ]

  -- `delete` tells the listeners of the Thing Description that was stored under the id.
  spawned-delete :
      (id : String) (old : ThingDescription) (c : Controller L)
      → (Storage.get lib L id c.storage).0 ≡ ok old
      → (delete lib L schemas id c).0 ≡ ok tt
      → (delete lib L schemas id c).1.spawned ≡ c.spawned ++ deletion old ∷ []
  unfolding delete
  spawned-delete id old c found h = elim (Result-cases (Storage.delete lib L id c.storage).0) [
    | inl (u, e) ↦ ground (arith, get-state lib L c.storage id)
    | inr fails ↦ absurd (ground (arith, get-state lib L c.storage id))
  ]

  found_old :
      (id : String) (c : Controller L)
      → IsCatalog lib.rfc L c.storage
      → (delete lib L schemas id c).0 ≡ ok tt
      → (old : ThingDescription) × ((Storage.get lib L id c.storage).0 ≡ ok old)
        × (get key_thing_id old ≡ some (text id))
  unfolding delete
  found_old id c h e = elim (Option-cases (stored L c.storage id)) [
    | inl fresh ↦
        let missing : (Storage.get lib L id c.storage).0 ≡ err (not_found_error id) =
          get-decoded lib L c.storage id sure ∙ rw fresh refl in
        absurd (ground arith)
    | inr (bytes, present) ↦
        let entry = All-lookup _ id (entries L c.storage) bytes h.each present in
        (
          entry.td,
          get-decoded lib L c.storage id sure ∙ rw (present, entry.reads) refl,
          entry.identified,
        )
  ]

  delete-Mirrors :
      (id : String) (c : Controller L)
      → IsCatalog lib.rfc L c.storage
      → Mirrors lib L sure schemas c (delete lib L schemas id c).1
  delete-Mirrors id c h = elim (Result-cases (delete lib L schemas id c).0) [
    | inr fails ↦ Idle-Mirrors lib L sure schemas id c _ (delete-Idle lib L schemas id c fails)
    | inl (u, e) ↦
        let (old, found, identified) = found_old id c h e in
        (
          deletion old ∷ [],
          spawned-delete id old c found e,
          λ j.
              get-delete lib L sure schemas c id j e
              ∙ sym (
                  ap (λ o. fill lib o (λ i. err (not_found_error i)) (view lib schemas L sure c) j)
                    (key_of-text lib L sure schemas old id identified)),
        )
  ]

  update-Mirrors :
      (id : String) (td : ThingDescription) (now : Time) (c : Controller L)
      → IsMap td
      → get key_thing_id td ≡ some (text id)
      → Mirrors lib L sure schemas c (update lib L schemas id td now c).1
  update-Mirrors id td now c m e = elim (update-cases lib L schemas id c td now) [
    | inl (idle, failed) ↦ Idle-Mirrors lib L sure schemas id c _ idle
    | inr (old, found, same) ↦ rw same (replace-Mirrors id old td now c m e)
  ]

  patch-Mirrors :
      (id : String) (sent : Value) (now : Time) (c : Controller L)
      → ((old merged : ThingDescription)
          → Merges lib L schemas id c old sent merged
          → get key_thing_id merged ≡ some (text id))
      → Mirrors lib L sure schemas c (patch lib L schemas id sent now c).1
  patch-Mirrors id sent now c keeps = elim (patch-cases lib L schemas id c sent now) [
    | inl (idle, failed) ↦ Idle-Mirrors lib L sure schemas id c _ idle
    | inr (old, merged, w) ↦ rw (patch-replace lib L schemas id c old sent merged now w) (
        replace-Mirrors id old merged now c
          (IsJsonMap-IsMap merged (unmarshal_map-IsJsonMap w.new_bytes merged w.reads))
          (keeps old merged w))
  ]

  -- A call whose Thing Description has the id that it is for.
  abbrev pub KeepsKey : Call → Controller L → Type 0
  KeepsKey (adding td now uuid) c = IsMap td
  KeepsKey (updating id td now) c = IsMap td × (get key_thing_id td ≡ some (text id))
  KeepsKey (patching id sent now) c =
      (old merged : ThingDescription)
      → Merges lib L schemas id c old sent merged
      → get key_thing_id merged ≡ some (text id)
  KeepsKey (removing id) c = Unit

  perform-Mirrors :
      (call : Call) (c : Controller L)
      → IsCatalog lib.rfc L c.storage
      → KeepsKey call c
      → Mirrors lib L sure schemas c (perform lib schemas L sure call c)
        × IsCatalog lib.rfc L (perform lib schemas L sure call c).storage
  perform-Mirrors (adding td now uuid) c h m =
      (add-Mirrors td now uuid c m, add-IsCatalog lib L schemas c h td now uuid m)
  perform-Mirrors (updating id td now) c h (m, e) =
      (update-Mirrors id td now c m e, update-IsCatalog lib L schemas c h id td now m e)
  perform-Mirrors (patching id sent now) c h keeps =
      (patch-Mirrors id sent now c keeps, patch-IsCatalog lib L schemas c h id sent now keeps)
  perform-Mirrors (removing id) c h u =
      (delete-Mirrors id c h, delete-IsCatalog lib L schemas c h id)

  Mirrors-trans :
      (c d e : Controller L)
      → Mirrors lib L sure schemas c d
      → Mirrors lib L sure schemas d e
      → Mirrors lib L sure schemas c e
  Mirrors-trans c d e (jobs, spawned, shows) (more, spawned', shows') = (
    jobs ++ more,
    spawned' ∙ (ap (λ js. js ++ more) spawned ∙ append_assoc c.spawned jobs more),
    λ j.
        shows' j
        ∙ (told_all-eq lib more (view lib schemas L sure d)
              (told_all lib jobs (view lib schemas L sure c)) shows j
            ∙ sym (told_all-append lib jobs more (view lib schemas L sure c) j)),
  )

  abbrev pub KeepKeys : List Call → Controller L → Type 0
  KeepKeys [] c = Unit
  KeepKeys (call ∷ calls) c = KeepsKey call c × KeepKeys calls (perform lib schemas L sure call c)

  -- Over a store that does not fail and from a well-formed catalog, in any sequence of calls of
  -- `add`, `update`, `patch` and `delete`, of JSON objects with the ids that the calls are for, the
  -- goroutines that are started tell the listeners just what has changed: a map that is brought up
  -- to date by each creation, change and deletion, in the order in which they are started, shows
  -- under every id what `get` finds there at the end.
  pub perform_all-Mirrors :
      (calls : List Call) (c : Controller L)
      → IsCatalog lib.rfc L c.storage
      → KeepKeys calls c
      → Mirrors lib L sure schemas c (perform_all lib schemas L sure calls c)
  perform_all-Mirrors [] c h k = ([], sym (append-nil _), λ j. refl)
  perform_all-Mirrors (call ∷ calls) c h (k, ks) =
      let d = perform lib schemas L sure call c in
      let (mirrors, still) = perform-Mirrors call c h k in
      Mirrors-trans c d (perform_all lib schemas L sure calls d) mirrors
        (perform_all-Mirrors calls d still ks)
