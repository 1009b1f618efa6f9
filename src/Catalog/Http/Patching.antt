-- ===== src/Catalog/Http/Patching.antt =====
-- What a PATCH request that the handler has accepted leaves: GET of the id answers the old Thing
-- Description, merged with what the request has sent.
use thing_directory.Common.{[], ◌≡◌, String, List}
use thing_directory.Common.Order.{text_order}
use thing_directory.Json.{ThingDescription}
use thing_directory.LevelDb.{LevelDb, IsFaultless}
use thing_directory.Libraries.{Libraries}
use thing_directory.Catalog.Controller
use thing_directory.Catalog.Controller.{Controller}
use thing_directory.Catalog.Controller.Effects.{Merges}
use thing_directory.Catalog.Controller.RoundTrip.{Replaced}
use thing_directory.Catalog.Responses.{Response, status_no_content}
use thing_directory.Catalog.Http.{Request, sent_map, plain_response}
use thing_directory.Catalog.Http.Invariant.{Sends}

module _ (lib : Libraries) (L : LevelDb String) (sure : IsFaultless L)
    (schemas : List lib.Schema) where
  -- The old Thing Description and the patch, merged, are stored with the old creation time.
  abbrev Patched : Request → Controller L → Response → Controller L → Type 0
  Patched req c a d =
      (a ≡ plain_response status_no_content [])
      × (td : ThingDescription) × Sends lib L schemas req td
      × (old : ThingDescription) × (merged : ThingDescription) × Merges lib L schemas req.id c old
          (sent_map req td) merged
      × Replaced lib L sure schemas req.id old merged req.now c d
