-- ===== src/Catalog/Stored/Preservation.antt =====
-- `add`, `update` and `delete` of the controller keep the invariant of the stored catalog, whether they
-- return or fail.
use thing_directory.Common.{◌≡◌, refl, inl, inr, String, some, List}
use thing_directory.Common.Order.{text_order}
use thing_directory.Time.{Time}
use thing_directory.Wot.{key_thing_id}
use thing_directory.Json.{Value, text, ThingDescription, get, as_text}
use thing_directory.Json.RoundTrip.{IsMap}
use thing_directory.Json.Maps.{IsJsonMap-IsMap}
use thing_directory.Json.Decoded.{unmarshal_map-IsJsonMap}
use thing_directory.LevelDb.{LevelDb}
use thing_directory.Libraries.{Libraries}
use thing_directory.Catalog.Storage.Entries.{add-All, update-All, delete-All}
use thing_directory.Catalog.Controller.{
  Controller, add, update, delete, patch, with_id, id_or_urn, stamp,
}
use thing_directory.Catalog.Controller.Effects.{
  Adds, add-Adds, Replaces, update-Replaces, replace-Replaces, delete-effect, Merges, patch-replace,
  patch-cases,
}
use thing_directory.Catalog.Stored.{IsCatalog, stamp-IsStored, get-with_id, with_id-IsMap}

module _ (lib : Libraries) (L : LevelDb String) (schemas : List lib.Schema) (c : Controller L)
    (h : IsCatalog lib.rfc L c.storage) where
  module _ (id : String) (td : ThingDescription) (now : Time) (m : IsMap td)
      (e : get key_thing_id td ≡ some (text id)) where
    Adds-IsCatalog :
        (d : Controller L) → Adds lib L schemas id c td now d → IsCatalog lib.rfc L d.storage
    Adds-IsCatalog d (inl (same, _)) = rw same h
    Adds-IsCatalog d (inr (tr, _, written)) = rw written (record {
      each =
          add-All lib L _ id (stamp (some now) tr now td) c.storage
            (stamp-IsStored lib.rfc (some now) tr now td id m e) h.each;
    })

    Replaces-IsCatalog :
        (d : Controller L) → Replaces lib L schemas id c td now d → IsCatalog lib.rfc L d.storage
    Replaces-IsCatalog d (inl (same, _)) = rw same h
    Replaces-IsCatalog d (inr (created, tr, _, written)) = rw written (record {
      each =
          update-All lib L _ id (stamp created tr now td) c.storage
            (stamp-IsStored lib.rfc created tr now td id m e) h.each;
    })

  -- The catalog stays well formed when a Thing Description is added, or refused.
  pub add-IsCatalog :
      (td : ThingDescription) (now : Time) (uuid : String)
      → IsMap td
      → IsCatalog lib.rfc L (add lib L schemas td now uuid c).1.storage
  unfolding add
  add-IsCatalog td now uuid m =
      let o = as_text (get key_thing_id td) in
      Adds-IsCatalog (id_or_urn uuid o) (with_id uuid o td) now (with_id-IsMap uuid td o m)
        (get-with_id uuid td o refl) _ (add-Adds lib L schemas _ c (with_id uuid o td) now)

  -- So does an update whose Thing Description has the id that it is stored under.
  pub update-IsCatalog :
      (id : String) (td : ThingDescription) (now : Time)
      → IsMap td
      → get key_thing_id td ≡ some (text id)
      → IsCatalog lib.rfc L (update lib L schemas id td now c).1.storage
  update-IsCatalog id td now m e =
      Replaces-IsCatalog id td now m e _ (update-Replaces lib L schemas id c td now)

  -- A patch does if each Thing Description that it may lead to still has that id.
  pub patch-IsCatalog :
      (id : String) (sent : Value) (now : Time)
      → ((old merged : ThingDescription)
          → Merges lib L schemas id c old sent merged
          → get key_thing_id merged ≡ some (text id))
      → IsCatalog lib.rfc L (patch lib L schemas id sent now c).1.storage
  patch-IsCatalog id sent now keeps = elim (patch-cases lib L schemas id c sent now) [
    | inl ((same, _), failed) ↦ rw same h
    | inr (old, merged, w) ↦ rw (patch-replace lib L schemas id c old sent merged now w) (
        Replaces-IsCatalog id merged now
          (IsJsonMap-IsMap merged (unmarshal_map-IsJsonMap w.new_bytes merged w.reads))
          (keeps old merged w) _ (replace-Replaces lib L schemas id c old merged now))
  ]

  pub delete-IsCatalog : (id : String) → IsCatalog lib.rfc L (delete lib L schemas id c).1.storage
  delete-IsCatalog id = elim (delete-effect lib L schemas id c) [
    | inl (same, _) ↦ rw same h
    | inr written ↦ rw written (record { each = delete-All lib L _ id c.storage h.each })
  ]
