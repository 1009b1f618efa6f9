-- ===== src/Start/Serving/RoundTrip.antt =====
-- The operations on one Thing Description, as a client sees them: a path is read as its id, under both
-- prefixes, and what is put to it can be got.
use thing_directory.Common.{ℕ, ◌≡◌, refl, ap, ◌∙◌, Bool, true, String, some, List, [], ◌∷◌}
use thing_directory.Common.Order.{text_order}
use thing_directory.Time.{Time}
use thing_directory.Errors.{Result, ok, err, panicked}
use thing_directory.LevelDb.{LevelDb}
use thing_directory.Libraries.{Libraries}
use thing_directory.Catalog.Controller.{Controller}
use thing_directory.Start.Packages.{Packages}
use thing_directory.Start.Config.{HttpConfig}
use thing_directory.Start.Router.{
  Endpoint, Middleware, Route, routes, with_routes, common_handlers, setup_http_router,
}
use thing_directory.Start.Router.Mux.{Mux, IsMux, Vars, rest, accepts}
use thing_directory.Start.Router.Dispatch.{
  Operation, Collection, method_of, path_of, endpoint_of, item, find-item,
}
use thing_directory.Start.Serving.{HttpRequest, endpoint, call, call_match, serve}

with_routes-routes :
    (r : Result (List Middleware)) (rs : List Route)
    → with_routes r ≡ ok rs
    → (common : List Middleware) × (rs ≡ routes common)
with_routes-routes (ok common) rs e = (common, cc)
with_routes-routes (err f) rs e = cc
with_routes-routes (panicked m) rs e = cc

-- A request for an operation on the Thing Description of an id, under one of the two prefixes.
pub record IsItem (op : Operation) (id : String) (req : HttpRequest) : Type 0 where
  pub collection : Collection
  pub method : req.method ≡ method_of op
  pub path : req.path ≡ path_of collection id

-- No middleware stops the request.
abbrev pub Passes : (Middleware → HttpRequest → Bool) → HttpRequest → Type 0
Passes passes req = (w : Middleware) → passes w req ≡ true

module _ (lib : Libraries) (L : LevelDb String) (schemas : List lib.Schema) (version : String)
    (passes : Middleware → HttpRequest → Bool) where
  call-endpoint :
      (fuel : ℕ) (ws : List Middleware) (e : Endpoint) (req : HttpRequest) (vars : Vars)
      (c : Controller L)
      → Passes passes req
      → call lib L schemas version passes fuel ws e req vars c
        ≡ endpoint lib L schemas version fuel e req vars c
  unfolding call
  call-endpoint fuel [] e req vars c h = refl
  call-endpoint fuel (w ∷ ws) e req vars c h = rw (h w) (call-endpoint fuel ws e req vars c h)

  -- With the routes that the server sets up and a router that meets its description, a GET, PUT,
  -- PATCH or DELETE request to /td/ or /things/ followed by an id, that no middleware stops, is
  -- answered by the handler of its method, with all that stands behind the prefix as the id, a
  -- slash at its end included. The id is not empty and holds no end of a line.
  pub serve-item :
      (p : Packages) (conf : HttpConfig p) (rs : List Route) (m : Mux) (fuel : ℕ) (op : Operation)
      (id : String) (req : HttpRequest) (c : Controller L)
      → setup_http_router p conf ≡ ok rs
      → IsMux m
      → accepts rest id ≡ true
      → IsItem op id req
      → Passes passes req
      → serve lib L schemas version passes m rs fuel req c
        ≡ endpoint lib L schemas version fuel (endpoint_of op) req (("id", id) ∷ []) c
  unfolding serve setup_http_router
  serve-item p conf rs m fuel op id req c set h named at pass =
      let (common, same) = with_routes-routes (common_handlers p conf) rs set in
      let found : m.find rs req.method req.path ≡ some (item common op id) =
        rw (same, at.method, at.path) (find-item m h common op at.collection id named) in
      ap (λ f. call_match lib L schemas version passes fuel req f c) found
      ∙ call-endpoint fuel common (endpoint_of op) req (("id", id) ∷ []) c pass
