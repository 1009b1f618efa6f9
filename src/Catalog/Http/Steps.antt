-- ===== src/Catalog/Http/Steps.antt =====
-- The life of a catalog: the requests that write and the rounds of the removal, in any order.
use thing_directory.Common.{inl, inr, Option-cases, String, List, [], ◌∷◌}
use thing_directory.Common.Order.{text_order}
use thing_directory.Time.{Time}
use thing_directory.Wot.{key_thing_id}
use thing_directory.Errors.{Result, ok, err, panicked}
use thing_directory.Exec.{continue}
use thing_directory.Json.{ThingDescription, get, as_text}
use thing_directory.LevelDb.{LevelDb}
use thing_directory.Libraries.{Libraries}
use thing_directory.Catalog.Storage.{LevelDbStorage}
use thing_directory.Catalog.Storage.Entries.{delete-All}
use thing_directory.Catalog.Storage
use thing_directory.Catalog.Controller.{Controller}
use thing_directory.Catalog.Stored.{IsCatalog}
use thing_directory.Catalog.Expiry.{remove_all, clean_expired, expired_services}
use thing_directory.Catalog.Http.{Request, post, put, patch, delete}
use thing_directory.Catalog.Http.Invariant.{
  KeepsId, post-IsCatalog, put-IsCatalog, patch-IsCatalog, delete-IsCatalog,
}

module _ (lib : Libraries) (L : LevelDb String) (schemas : List lib.Schema) where
  -- One request, or one round at a time t, from a state to the next.
  pub data Step (c : Controller L) : Controller L → Type 0 where
    posted : (req : Request) → Step c (post lib L schemas req c).1
    was_put : (req : Request) → Step c (put lib L schemas req c).1
    patched : (req : Request) → KeepsId lib L schemas req c → Step c (patch lib L schemas req c).1
    deleted : (req : Request) → Step c (delete lib L schemas req c).1
    cleaned : (t : Time) → Step c (record c { storage = (clean_expired lib L t c.storage).1 })

  pub data Reaches (c : Controller L) : Controller L → Type 0 where
    stay : Reaches c c
    go_on : {d e : Controller L} → Reaches c d → Step d e → Reaches c e

  remove_all-IsCatalog :
      (tds : List ThingDescription) (s : LevelDbStorage L)
      → IsCatalog lib.rfc L s
      → IsCatalog lib.rfc L (remove_all lib L tds s).1
  unfolding remove_all
  remove_all-IsCatalog [] s h = h
  remove_all-IsCatalog (td ∷ tds) s h = elim (Option-cases (as_text (get key_thing_id td))) [
    | inl e ↦ rw (e, remove_all) h
    | inr (id, e) ↦
        rw (e, remove_all)
          (remove_all-IsCatalog tds _ (record { each = delete-All lib L _ id s h.each }))
  ]

  pub clean-IsCatalog :
      (t : Time) (s : LevelDbStorage L)
      → IsCatalog lib.rfc L s
      → IsCatalog lib.rfc L (clean_expired lib L t s).1
  unfolding clean_expired
  clean-IsCatalog t s h = go (expired_services lib.rfc t (Storage.iterator lib L s))
    where
      go :
          (r : Result (List ThingDescription))
          → IsCatalog lib.rfc L (continue r (remove_all lib L) s).1
      go (ok tds) = remove_all-IsCatalog tds s h
      go (err e) = h
      go (panicked m) = h

  step-IsCatalog :
      (c d : Controller L)
      → IsCatalog lib.rfc L c.storage
      → Step c d
      → IsCatalog lib.rfc L d.storage
  step-IsCatalog c d h (posted req) = post-IsCatalog lib L schemas req c h
  step-IsCatalog c d h (was_put req) = put-IsCatalog lib L schemas req c h
  step-IsCatalog c d h (patched req k) = patch-IsCatalog lib L schemas req c h k
  step-IsCatalog c d h (deleted req) = delete-IsCatalog lib L schemas req c h
  step-IsCatalog c d h (cleaned t) = clean-IsCatalog t c.storage h

  -- From a well-formed catalog (each entry is the text of a JSON object whose id is the entry's key
  -- and whose registration can be read), POST, PUT and DELETE requests with any content, PATCH
  -- requests that keep the id, and rounds of the removal, in any order and number, lead to well-
  -- formed catalogs only.
  pub Reaches-IsCatalog :
      (c d : Controller L)
      → IsCatalog lib.rfc L c.storage
      → Reaches c d
      → IsCatalog lib.rfc L d.storage
  Reaches-IsCatalog c d h stay = h
  Reaches-IsCatalog c d h (go_on {d = b} w s) = step-IsCatalog b d (Reaches-IsCatalog c b h w) s
