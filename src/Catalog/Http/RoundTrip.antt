-- ===== src/Catalog/Http/RoundTrip.antt =====
-- A Thing Description that a PUT request has sent, and that the handler has accepted, is what GET of its
-- id answers.
use thing_directory.Common.{
  ◌≡◌, refl, sym, ap, ◌∙◌, inl, inr, false, not, ◌||◌, String, Option, some, List, [], ◌∷◌,
  Bool-cases, is_some, ◌==◌,
}
use mathlib.Core.Path.{subst}
use thing_directory.Common.Order.{text_order}
use thing_directory.Time.{Time}
use thing_directory.Wot.{ThingRegistration, key_thing_id}
use thing_directory.Errors.{Error, not_found, conflict, bad_request, validation, plain, ok}
use thing_directory.Exec.{pure}
use thing_directory.Json.{ThingDescription, get, as_text}
use thing_directory.Json.RoundTrip.{plain_fields}
use thing_directory.LevelDb.{LevelDb, IsFaultless}
use thing_directory.Libraries.{Libraries}
use thing_directory.Catalog.Controller
use thing_directory.Catalog.Controller.{Controller, id_or_urn, with_id}
use thing_directory.Catalog.Registration.{thing_registration}
use thing_directory.Catalog.Controller.Stamping.{promised}
use thing_directory.Catalog.Controller.RoundTrip.{gets, get-add, get-update}
use thing_directory.Catalog.Responses.{Response, status_created}
use thing_directory.Catalog.Http.{
  Request, put, put_error, get_one, attempt, is_text, plain_response, add_error,
}
use thing_directory.Catalog.Http.Invariant.{Sends, Sends-IsMap, is_text-eq}
use thing_directory.Catalog.Http.Accepted.{
  IsAccepted, add_error-refused, update_error-refused, fails-refused, Accepts, refuses,
  attempt-Accepts, with_body-Accepts, answer, get_one-stamped,
}

module _ (lib : Libraries) (L : LevelDb String) (sure : IsFaultless L)
    (schemas : List lib.Schema) where
  -- The Thing Description that was sent is stored, stamped.
  abbrev Serves : Request → ThingDescription → Controller L → Type 0
  Serves req td d =
      (created : Option Time) × (tr : Option ThingRegistration) × (thing_registration lib.rfc td
        ≡ ok tr)
      × (gets lib L sure schemas req.id d
          ≡ ok (plain_fields lib.rfc (promised created tr req.now td)))

  abbrev Stored : Request → Response → Controller L → Type 0
  Stored req a d = (td : ThingDescription) × Sends lib L schemas req td × Serves req td d

  module _ (req : Request) where
    module _ (td : ThingDescription) (sends : Sends lib L schemas req td)
        (same : as_text (get key_thing_id td) ≡ some req.id) (named : (req.id == "") ≡ false) where
      add-Accepts :
          (d : Controller L)
          → Accepts lib L schemas (Stored req) (
              attempt
                (Controller.add lib L schemas td req.now req.uuid)
                (λ e. pure (add_error req "Error creating the registration:" e))
                (λ id. pure (plain_response status_created (("Location", id) ∷ [])))
                d)
      add-Accepts d =
          attempt-Accepts lib L schemas (Stored req)
            (Controller.add lib L schemas td req.now req.uuid)
            (λ e. pure (add_error req "Error creating the registration:" e))
            (λ id. pure (plain_response status_created (("Location", id) ∷ []))) d
            (λ e.
              refuses lib L schemas (Stored req)
                (add_error req "Error creating the registration:" e) _
                (add_error-refused req "Error creating the registration:" e))
            (λ j adds b e h.
              let (tr, read, returned, fresh, shows, others) =
                get-add lib L sure schemas d td req.now req.uuid j
                  (Sends-IsMap lib L schemas req td sends) adds in
              let own : id_or_urn req.uuid (as_text (get key_thing_id td)) ≡ req.id =
                rw (same, named) refl in
              let kept : with_id req.uuid (as_text (get key_thing_id td)) td ≡ td =
                rw (same, named) refl in
              (
                td,
                sends,
                (
                  some req.now,
                  tr,
                  ap (thing_registration lib.rfc) (sym kept) ∙ read,
                  ap
                        (λ i.
                          gets lib L sure schemas i
                            (Controller.add lib L schemas td req.now req.uuid d).1)
                        (sym (returned ∙ own))
                      ∙ (shows
                          ∙ ap
                              (λ t.
                                ok (plain_fields lib.rfc (promised (some req.now) tr req.now t)))
                              kept),
                ),
              ))

      put_error-Accepts :
          (e : Error) (d : Controller L)
          → Accepts lib L schemas (Stored req) (put_error lib L schemas req td e d)
      put_error-Accepts (not_found m) d = add-Accepts d
      put_error-Accepts (conflict m) d =
          refuses lib L schemas (Stored req) _ d (update_error-refused req (conflict m))
      put_error-Accepts (bad_request m) d =
          refuses lib L schemas (Stored req) _ d (update_error-refused req (bad_request m))
      put_error-Accepts (validation issues) d =
          refuses lib L schemas (Stored req) _ d (update_error-refused req (validation issues))
      put_error-Accepts (plain m) d =
          refuses lib L schemas (Stored req) _ d (update_error-refused req (plain m))

    put-Accepts : (c : Controller L) → Accepts lib L schemas (Stored req) (put lib L schemas req c)
    unfolding put
    put-Accepts c = with_body-Accepts lib L schemas (Stored req) req _ c λ td sends.
        let id = as_text (get key_thing_id td) in
        elim (Bool-cases (not (is_some id) || is_text "" id)) [
          | inl refused ↦ rw refused (refuses lib L schemas (Stored req) _ c (fails-refused req _))
          | inr named ↦ elim (Bool-cases (is_text req.id id)) [
            | inr refused ↦
                rw (named, refused) (refuses lib L schemas (Stored req) _ c (fails-refused req _))
            | inl same ↦
                let own = is_text-eq req.id id same in
                rw (named, same)
                  (attempt-Accepts lib L schemas (Stored req)
                    (Controller.update lib L schemas req.id td req.now)
                    (put_error lib L schemas req td) _ c
                    (λ e.
                      put_error-Accepts td sends own
                        (subst (λ o. (not (is_some o) || is_text "" o) ≡ false) own named) e _)
                    (λ u updates b e h.
                      let (old, before, tr, found, was, read, shows, others) =
                        get-update lib L sure schemas c req.id td req.now
                          (Sends-IsMap lib L schemas req td sends) updates in
                      (td, sends, (before.created, tr, read, shows))))
          ]
        ]

  -- Over a store that does not fail, if a PUT request is answered by 201 or 204, then GET of the
  -- same id answers 200 with the text of the Thing Description that the request has sent, stamped
  -- with a registration whose modification time is the time of the request.
  pub get_one-put :
      (req ask : Request) (c : Controller L) (a : Response)
      → (put lib L schemas req c).0 ≡ ok a
      → IsAccepted a
      → ask.id ≡ req.id
      → (td : ThingDescription) × Sends lib L schemas req td
        × (created : Option Time) × (tr : Option ThingRegistration) × (thing_registration lib.rfc td
            ≡ ok tr)
        × ((get_one lib L schemas ask (put lib L schemas req c).1).0
            ≡ ok (answer lib L sure schemas created tr req.now td))
  get_one-put req ask c a returns accepted same =
      let (td, sends, (created, tr, read, shows)) = put-Accepts req c a returns accepted in
      let answers =
        get_one-stamped lib L sure schemas ask req.id req.now td (put lib L schemas req c).1
          (Sends-IsMap lib L schemas req td sends) same created tr shows in
      (td, sends, created, tr, read, answers)
