-- ===== src/Catalog/Http/Statuses.antt =====
-- What GET and DELETE of a Thing Description answer, over a well-formed catalog.
use Prim.Native.String.{◌++◌ as text_append}
use thing_directory.Common.{
  ℕ, ◌≡◌, refl, ◌∙◌, inl, inr, true, String, some, none, List, [], ◌∷◌, arith, eq_iff, is_some,
  if◌then◌else◌, Option-cases,
}
use thing_directory.Common.Order.{text_order}
use thing_directory.Common.SortedMap.{All-lookup}
use thing_directory.Errors.{ok, err}
use thing_directory.Json.{
  Value, null, boolean, number, text, array, object, registration, Items, nil, cons, Fields, end,
  field, Bytes,
}
use thing_directory.Json.Print.{marshal, print, is_printable, are_printable, have_printable}
use thing_directory.Json.RoundTrip.{IsJson, AreJson, IsJsonMap}
use thing_directory.LevelDb.{LevelDb, IsFaultless}
use thing_directory.Libraries.{Libraries}
use thing_directory.Wot.{media_type_thing_description}
use thing_directory.Catalog.Storage
use thing_directory.Catalog.Storage.{not_found_error}
use thing_directory.Catalog.Storage.Crud.{entries, stored, stored-delete, get-decoded, get-state}
use thing_directory.Catalog.Storage.Results.{delete-result}
use thing_directory.Catalog.Controller
use thing_directory.Catalog.Controller.{Controller}
use thing_directory.Catalog.Stored.{IsStored, IsCatalog}
use thing_directory.Catalog.Responses.{
  Response, payload, error_response, problem_details_response, status_ok, status_no_content,
  status_not_found,
}
use thing_directory.Catalog.Http.{Request, fails, get_one, delete, plain_response, lookup_error}

mutual
  unfolding is_printable

  IsJson-is_printable : (v : Value) → IsJson v → is_printable v ≡ true
  IsJson-is_printable null h = refl
  IsJson-is_printable (boolean b) h = refl
  IsJson-is_printable (number x) h = refl
  IsJson-is_printable (text s) h = refl
  IsJson-is_printable (array vs) h = AreJson-are_printable vs h
  IsJson-is_printable (object fs) h = IsJsonMap-have_printable fs h
  IsJson-is_printable (registration r) h = absurd h

  AreJson-are_printable : (vs : Items) → AreJson vs → are_printable vs ≡ true
  AreJson-are_printable nil h = refl
  AreJson-are_printable (cons v vs) (h, hs) =
      rw (IsJson-is_printable v h) (AreJson-are_printable vs hs)

  pub IsJsonMap-have_printable : (fs : Fields) → IsJsonMap fs → have_printable fs ≡ true
  IsJsonMap-have_printable end h = refl
  IsJsonMap-have_printable (field k v fs) (a, h, hs) =
      rw (IsJson-is_printable v h) (IsJsonMap-have_printable fs hs)

status-fails : (req : Request) (code : ℕ) (msg : String) → (fails req code msg).status ≡ code
unfolding error_response problem_details_response
status-fails req code msg = refl

module _ (lib : Libraries) (L : LevelDb String) (sure : IsFaultless L) (schemas : List lib.Schema)
    (req : Request) (c : Controller L) (h : IsCatalog lib.rfc L c.storage) where
  stored_at :
      (bytes : Bytes) → stored L c.storage req.id ≡ some bytes → IsStored lib.rfc req.id bytes
  stored_at bytes e = All-lookup _ req.id (entries L c.storage) bytes h.each e

  got_none :
      stored L c.storage req.id ≡ none
      → (Storage.get lib L req.id c.storage).0 ≡ err (not_found_error req.id)
  got_none e = get-decoded lib L c.storage req.id sure ∙ rw e refl

  got_some :
      (bytes : Bytes) (e : stored L c.storage req.id ≡ some bytes)
      → (Storage.get lib L req.id c.storage).0 ≡ ok (stored_at bytes e).td
  got_some bytes e =
      get-decoded lib L c.storage req.id sure ∙ rw (e, (stored_at bytes e).reads) refl

  -- Over a store that does not fail and a well-formed catalog, GET of an id does not panic, answers
  -- 200 if something is stored under the id and 404 if not, and leaves the storage as it was.
  pub get_one-status :
      (r : Response) × ((get_one lib L schemas req c).0 ≡ ok r)
      × (r.status ≡ (if is_some (stored L c.storage req.id) then status_ok else status_not_found))
      × ((get_one lib L schemas req c).1.storage ≡ c.storage)
  unfolding get_one Controller.get_td lookup_error marshal is_printable
  get_one-status = elim (Option-cases (stored L c.storage req.id)) [
    | inl e ↦ (
      fails req status_not_found (text_append req.id " is not found"),
      rw (got_none e) refl,
      rw e (status-fails req status_not_found _),
      ground (arith, got_none e, get-state lib L c.storage req.id),
    )
    | inr (bytes, e) ↦
        let td = (stored_at bytes e).td in
        let p = IsJsonMap-have_printable td (stored_at bytes e).json in
        (
          record {
            status = status_ok;
            headers = ("Content-Type", media_type_thing_description) ∷ [];
            body = payload (print lib.rfc (object td) []);
          },
          rw (got_some bytes e, p) refl,
          rw e refl,
          ground (arith, got_some bytes e, p, get-state lib L c.storage req.id),
        )
  ]

  -- Over a store that does not fail and a well-formed catalog, DELETE of an id does not panic,
  -- answers 204 if something was stored under the id and 404 if not, and nothing is stored under it
  -- afterwards.
  pub delete-status :
      (r : Response) × ((delete lib L schemas req c).0 ≡ ok r)
      × (r.status
          ≡ (if is_some (stored L c.storage req.id) then status_no_content else status_not_found))
      × (stored L (delete lib L schemas req c).1.storage req.id ≡ none)
  unfolding delete Controller.delete lookup_error
  delete-status = elim (Option-cases (stored L c.storage req.id)) [
    | inl e ↦ (
      fails req status_not_found (text_append req.id " is not found"),
      rw (got_none e) refl,
      rw e (status-fails req status_not_found _),
      rw (got_none e) (rw (get-state lib L c.storage req.id) e),
    )
    | inr (bytes, e) ↦
        let gone : (Storage.delete lib L req.id c.storage).0 ≡ ok tt =
          delete-result lib L sure c.storage req.id ∙ rw e refl in
        let erased : stored L (Storage.delete lib L req.id c.storage).1 req.id ≡ none =
          ground (arith, stored-delete lib L sure c.storage req.id req.id, eq_iff req.id req.id) in
        (
          plain_response status_no_content [],
          rw (got_some bytes e, get-state lib L c.storage req.id, gone) refl,
          rw e refl,
          rw (got_some bytes e, get-state lib L c.storage req.id, gone) erased,
        )
  ]
