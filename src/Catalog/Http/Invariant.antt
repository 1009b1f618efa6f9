-- ===== src/Catalog/Http/Invariant.antt =====
-- The handlers that write, and the removal of expired Thing Descriptions, keep the catalog well formed,
-- whatever the request.
use thing_directory.Common.{
  ◌≡◌, refl, ap, inl, inr, true, not, ◌&&◌, ◌||◌, String, Option, some, none, List, [], ◌∷◌, eq_iff,
  Option-cases, Bool-cases, is_some,
}
use thing_directory.Common.Order.{text_order}
use thing_directory.Wot.{key_thing_id}
use thing_directory.Errors.{Result, ok, err, panicked, Error, not_found, Io, done, fault}
use thing_directory.Exec.{Exec, pure}
use thing_directory.Catalog.Responses.{status_created, status_no_content}
use thing_directory.Json.{text, ThingDescription, get, as_text, Bytes}
use thing_directory.Json.RoundTrip.{IsMap}
use thing_directory.Json.Maps.{IsJsonMap-IsMap}
use thing_directory.Json.Parse.{unmarshal_map}
use thing_directory.Json.Decoded.{unmarshal_map-IsJsonMap}
use thing_directory.LevelDb.{LevelDb}
use thing_directory.Libraries.{Libraries}
use thing_directory.Catalog.Controller
use thing_directory.Catalog.Controller.{Controller}
use thing_directory.Catalog.Stored.{IsCatalog, text_of}
use thing_directory.Catalog.Stored.Preservation
use thing_directory.Catalog.Stored.Preservation.{add-IsCatalog, update-IsCatalog}
use thing_directory.Catalog.Controller.Effects.{Merges}
use thing_directory.Catalog.Http.{
  Request, post, put, put_error, delete, with_body, attempt, attempt_step, is_text, is_nil, Handler,
  plain_response, add_error, is_nil_map, sent_map, patch_error, lookup_error, patch,
}

pub is_text-eq : (s : String) (o : Option String) → is_text s o ≡ true → o ≡ some s
is_text-eq s none h = cc
is_text-eq s (some t) h = ap some ((eq_iff t s).0 h)

module _ (lib : Libraries) (L : LevelDb String) (schemas : List lib.Schema) where
  abbrev Holds : Controller L → Type 0
  Holds c = IsCatalog lib.rfc L c.storage

  -- A call that keeps the catalog, followed by handlers that keep it, keeps it.
  attempt-Holds :
      {A : Type 0} (m : Exec (Controller L) A) (on_error : Error → Handler lib L schemas)
      (k : A → Handler lib L schemas) (c : Controller L)
      → Holds (m c).1
      → ((e : Error) (d : Controller L) → Holds d → Holds (on_error e d).1)
      → ((a : A) (d : Controller L) → Holds d → Holds (k a d).1)
      → Holds (attempt m on_error k c).1
  attempt-Holds m on_error k c h on_err on_ok = go (m c).0 (m c).1 h
    where
      go : (r : Result _) (d : Controller L) → Holds d → Holds (attempt_step r on_error k d).1
      go (ok a) d h = on_ok a d h
      go (err e) d h = on_err e d h
      go (panicked p) d h = h

  -- The body of a request is the text of a Thing Description.
  abbrev pub Sends : Request → ThingDescription → Type 0
  Sends req td = (bytes : Bytes) × (req.body ≡ done bytes) × (unmarshal_map bytes ≡ some td)

  pub Sends-IsMap : (req : Request) (td : ThingDescription) → Sends req td → IsMap td
  Sends-IsMap req td (bytes, b, e) = IsJsonMap-IsMap td (unmarshal_map-IsJsonMap bytes td e)

  -- The patch that a request sends leads to no Thing Description with another id than its path's.
  abbrev pub KeepsId : Request → Controller L → Type 0
  KeepsId req c =
      (old td merged : ThingDescription)
      → Sends req td
      → Merges lib L schemas req.id c old (sent_map req td) merged
      → get key_thing_id merged ≡ some (text req.id)

  -- What is read from a body is a JSON object, or the handler refuses it and writes nothing.
  with_body-Holds :
      (req : Request) (k : ThingDescription → Handler lib L schemas) (c : Controller L)
      → Holds c
      → ((td : ThingDescription) → Sends req td → Holds (k td c).1)
      → Holds (with_body lib L schemas req k c).1
  with_body-Holds req k c h each = go req.body refl
    where
      go :
          (b : Io Bytes)
          → req.body ≡ b
          → Holds (with_body lib L schemas (record req { body = b }) k c).1
      go (fault m) b = h
      go (done bytes) b = elim (Option-cases (unmarshal_map bytes)) [
        | inl e ↦ rw e h
        | inr (td, e) ↦ rw e (each td (bytes, b, e))
      ]

  module _ (req : Request) (c : Controller L) (h : Holds c) where
    -- A POST request with any content keeps the catalog well formed, whether it creates, is refused
    -- or fails.
    pub post-IsCatalog : Holds (post lib L schemas req c).1
    unfolding post
    post-IsCatalog = with_body-Holds req _ c h λ td m.
        elim (Bool-cases (
          not (is_nil (get key_thing_id td)) && not (is_text "" (as_text (get key_thing_id td))))) [
            | inl refused ↦ rw refused h
            | inr new ↦ elim (Bool-cases (is_nil_map req)) [
              | inl panics ↦ rw (new, panics) h
              | inr goes_on ↦
                  rw (new, goes_on)
                    (attempt-Holds (Controller.add lib L schemas td req.now req.uuid)
                      (λ e. pure (add_error req "Error creating the resource:" e))
                      (λ id. pure (plain_response status_created (("Location", id) ∷ []))) c
                      (add-IsCatalog lib L schemas c h td req.now req.uuid (Sends-IsMap req td m))
                      (λ e d k. k) (λ a d k. k))
            ]
          ]

    put_error-Holds :
        (td : ThingDescription) (e : Error) (d : Controller L)
        → IsMap td
        → Holds d
        → Holds (put_error lib L schemas req td e d).1
    put_error-Holds td (not_found m) d n k =
        attempt-Holds (Controller.add lib L schemas td req.now req.uuid)
          (λ e. pure (add_error req "Error creating the registration:" e))
          (λ id. pure (plain_response status_created (("Location", id) ∷ []))) d
          (add-IsCatalog lib L schemas d k td req.now req.uuid n) (λ e d k. k) (λ a d k. k)
    put_error-Holds td _ d n k = k

    -- A PUT request with any content keeps the catalog well formed, whether it updates, creates, is
    -- refused or fails.
    pub put-IsCatalog : Holds (put lib L schemas req c).1
    unfolding put
    put-IsCatalog = with_body-Holds req _ c h λ td m.
        let id = as_text (get key_thing_id td) in
        elim (Bool-cases (not (is_some id) || is_text "" id)) [
          | inl refused ↦ rw refused h
          | inr named ↦ elim (Bool-cases (is_text req.id id)) [
            | inr refused ↦ rw (named, refused) h
            | inl same ↦
                rw (named, same)
                  (attempt-Holds (Controller.update lib L schemas req.id td req.now)
                    (put_error lib L schemas req td)
                    (λ _. pure (plain_response status_no_content [])) c
                    (update-IsCatalog lib L schemas c h req.id td req.now (Sends-IsMap req td m)
                      (text_of _ req.id (is_text-eq req.id id same)))
                    (λ e d. put_error-Holds td e d (Sends-IsMap req td m)) (λ a d k. k))
          ]
        ]

    pub delete-IsCatalog : Holds (delete lib L schemas req c).1
    unfolding delete
    delete-IsCatalog =
        attempt-Holds (Controller.delete lib L schemas req.id)
          (λ e. pure (lookup_error req "Error deleting the registration:" e))
          (λ _. pure (plain_response status_no_content [])) c
          (Preservation.delete-IsCatalog lib L schemas c h req.id) (λ e d k. k) (λ a d k. k)

    -- A PATCH request keeps the catalog well formed if the patch that it sends leads to no Thing
    -- Description with another id than its path's.
    pub patch-IsCatalog : KeepsId req c → Holds (patch lib L schemas req c).1
    unfolding patch
    patch-IsCatalog keeps = with_body-Holds req _ c h λ td m.
        let id = as_text (get key_thing_id td) in
        elim (Bool-cases (is_text "" id && not (is_text req.id id))) [
          | inl refused ↦ rw refused h
          | inr goes_on ↦ rw goes_on (
              attempt-Holds (Controller.patch lib L schemas req.id (sent_map req td) req.now)
                (λ e. pure (patch_error req e)) (λ _. pure (plain_response status_no_content [])) c
                (Preservation.patch-IsCatalog lib L schemas c h req.id (sent_map req td) req.now
                  (λ old merged. keeps old td merged m))
                (λ e d k. k) (λ a d k. k))
        ]
