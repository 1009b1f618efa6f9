-- ===== src/Catalog/Http/Creation.antt =====
-- A Thing Description that a POST request has sent, and that the handler has accepted, is what GET of its
-- location answers.
use thing_directory.Common.{◌≡◌, String, Option, some, List, [], ◌∷◌}
use thing_directory.Common.Order.{text_order}
use thing_directory.Wot.{ThingRegistration, key_thing_id}
use thing_directory.Errors.{ok}
use thing_directory.Json.{ThingDescription, get, as_text}
use thing_directory.Json.RoundTrip.{plain_fields}
use thing_directory.LevelDb.{LevelDb, IsFaultless}
use thing_directory.Libraries.{Libraries}
use thing_directory.Catalog.Controller
use thing_directory.Catalog.Controller.{Controller, id_or_urn, with_id}
use thing_directory.Catalog.Registration.{thing_registration}
use thing_directory.Catalog.Controller.Stamping.{promised}
use thing_directory.Catalog.Controller.RoundTrip.{gets}
use thing_directory.Catalog.Responses.{Response, status_created}
use thing_directory.Catalog.Http.{Request, plain_response}
use thing_directory.Catalog.Http.Invariant.{Sends}

module _ (lib : Libraries) (L : LevelDb String) (sure : IsFaultless L)
    (schemas : List lib.Schema) where
  -- The Thing Description with its id, which may be drawn.
  abbrev pub named : Request → ThingDescription → ThingDescription
  named req td = with_id req.uuid (as_text (get key_thing_id td)) td

  abbrev Created : Request → Response → Controller L → Type 0
  Created req a d =
      (td : ThingDescription) × Sends lib L schemas req td
      × (id : String) × (a ≡ plain_response status_created (("Location", id) ∷ []))
      × (tr : Option ThingRegistration) × (thing_registration lib.rfc (named req td) ≡ ok tr)
      × (gets lib L sure schemas id d
          ≡ ok (plain_fields lib.rfc (promised (some req.now) tr req.now (named req td))))
