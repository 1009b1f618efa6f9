-- ===== src/Examples/Servings.antt =====
-- The theorems on the server, each on a concrete request.
use thing_directory.Common.{
  ◌≡◌, refl, ◌∙◌, sym, Bool, true, false, String, Option, some, List, [], ◌∷◌,
}
use thing_directory.Common.Order.{text_order}
use thing_directory.Time.{Time}
use thing_directory.Errors.{fault}
use thing_directory.Catalog.Http.Safe.{SameStore}
use thing_directory.Start.Router.{
  Middleware, clear_handler, cors_handler, ticket_validator, routes, setup_http_router,
}
use thing_directory.Start.Router.Mux.{is_line}
use thing_directory.Start.Router.Dispatch.{Operation, Collection, item, find-item}
use thing_directory.Start.Serving.{HttpRequest, serve, endpoint}
use thing_directory.Start.Serving.Effects.{serve-SameStore, serve-Stops, Stops}
use thing_directory.Start.Serving.RoundTrip.{serve-item}
use thing_directory.Examples.{test_lib, test_db, new_lamp, lamp_controller, request}
use mathlib.Core.Path.{subst}
use mathlib.Core.Option.{some_inj}
use thing_directory.Start.Router.{Endpoint}
use thing_directory.Start.Serving.Invariant.{
  Admissible, KeepsIdAt, starts, answers, cleans, Serves-IsCatalog,
}
use thing_directory.Catalog.Stored.{IsCatalog}
use thing_directory.Catalog.Controller.{Controller}
use thing_directory.Catalog.Expiry.{clean_expired}
use thing_directory.Examples.Runs.{new_lamp-KeepsId, lamp-IsCatalog}
use thing_directory.Examples.Starts.{packages, config}
use thing_directory.Examples.Routing.{test_mux, test_mux-IsMux}

-- A request with the new Thing Description as its body.
abbrev to_lamp : String → String → HttpRequest
to_lamp method path = record {
  method = method;
  path = path;
  content = request "" new_lamp;
  subscription = record {
    form = λ name. "";
    type = "";
    last_event_id = "";
    flusher = true;
    channel = 0;
    instance_uuid = "2";
  };
  spec = fault "no network";
  cancelled = λ i. false;
  gone = λ i. false;
}

abbrev open_to_all : Middleware → HttpRequest → Bool
open_to_all w req = true

abbrev no_ticket : Middleware → HttpRequest → Bool
no_ticket ticket_validator req = false
no_ticket w req = true

abbrev common : List Middleware
common = clear_handler ∷ cors_handler ∷ ticket_validator ∷ []

find-item_example :
    test_mux.find (routes common) "DELETE" "/td/urn:lamp/"
    ≡ some (item common Operation.delete "urn:lamp/")
unfolding is_line
find-item_example =
    find-item test_mux test_mux-IsMux common Operation.delete Collection.td "urn:lamp/" refl

serve-item_example :
    serve test_lib test_db [] "" open_to_all test_mux
      (routes common)
      1
      (to_lamp "DELETE" "/td/urn:lamp")
      lamp_controller
    ≡ endpoint test_lib test_db [] "" 1 Endpoint.delete
        (to_lamp "DELETE" "/td/urn:lamp")
        (("id", "urn:lamp") ∷ [])
        lamp_controller
unfolding setup_http_router is_line
serve-item_example =
    serve-item test_lib test_db [] "" open_to_all packages config.http (routes common) test_mux 1
      Operation.delete "urn:lamp" (to_lamp "DELETE" "/td/urn:lamp") lamp_controller refl
      test_mux-IsMux refl (record { collection = Collection.td; method = refl; path = refl })
      (λ w. refl)

abbrev puts : HttpRequest
puts = to_lamp "PUT" "/things/urn:lamp"

abbrev patches : HttpRequest
patches = to_lamp "PATCH" "/things/urn:lamp"

-- The patch has the id of the path.
patches-Admissible :
    Admissible test_lib test_db [] "" open_to_all test_mux (routes common) 1 patches lamp_controller
unfolding is_line
patches-Admissible found e =
    let same : item common Operation.patch "urn:lamp" ≡ found = some_inj.0 (
      sym
        (find-item test_mux test_mux-IsMux common Operation.patch Collection.things "urn:lamp" refl)
      ∙ e) in
    subst (λ f. KeepsIdAt test_lib test_db [] "" patches lamp_controller f.handler.endpoint f.vars)
      same (λ patching. new_lamp-KeepsId)

abbrev patched : Controller test_db
patched =
    (serve test_lib test_db [] "" open_to_all test_mux (routes common) 1 patches lamp_controller).1

abbrev swept : Controller test_db
swept = record patched { storage = (clean_expired test_lib test_db 9 patched.storage).1 }

Serves-IsCatalog_example : IsCatalog test_lib.rfc test_db swept.storage
Serves-IsCatalog_example =
    Serves-IsCatalog test_lib test_db [] "" open_to_all test_mux (routes common) 1 lamp_controller
      swept lamp-IsCatalog (cleans 9 (answers patches starts patches-Admissible))

serve-Stops_example :
    Stops test_lib test_db [] "" no_ticket
      (serve test_lib test_db [] "" no_ticket test_mux
        (routes common)
        1
        (to_lamp "PUT" "/things/urn:lamp")
        lamp_controller)
      lamp_controller
unfolding setup_http_router
serve-Stops_example =
    serve-Stops test_lib test_db [] "" no_ticket packages config.http (routes common) test_mux 1
      (to_lamp "PUT" "/things/urn:lamp") lamp_controller refl refl test_mux-IsMux refl

serve-SameStore_example :
    SameStore test_lib test_db lamp_controller
      (serve test_lib test_db [] "" open_to_all test_mux
        (routes [])
        1
        (to_lamp "GET" "/search/xpath")
        lamp_controller).1
serve-SameStore_example =
    serve-SameStore test_lib test_db [] "" open_to_all test_mux [] 1 (to_lamp "GET" "/search/xpath")
      lamp_controller test_mux-IsMux refl
