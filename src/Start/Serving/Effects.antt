-- ===== src/Start/Serving/Effects.antt =====
-- What a request can change, by its method and by the middleware around its handler.
use thing_directory.Common.{
  ℕ, ◌≡◌, refl, sym, ◌∙◌, arith, Bool, true, false, not, ◌&&◌, ◌||◌, String, Option, some, List, [],
  ◌∷◌, ◌==◌, eq_iff, ◌⊎◌, inl, inr, Bool-cases, Option-cases,
}
use thing_directory.Common.Order.{text_order}
use thing_directory.Errors.{Result, ok}
use thing_directory.LevelDb.{LevelDb}
use thing_directory.Libraries.{Libraries}
use thing_directory.Catalog.Controller.{Controller}
use thing_directory.Catalog.Http.Safe.{
  SameStore, get_one-SameStore, get_many-SameStore, search_json_path-SameStore,
  search_x_path-SameStore,
}
use thing_directory.Start.Packages.{Packages}
use thing_directory.Start.Config.{HttpConfig}
use thing_directory.Start.Router.{
  Endpoint, Middleware, ticket_validator, Route, Handler, routes, setup_http_router,
}
use thing_directory.Start.Router.Mux.{Mux, IsMux, Vars, Match, first_match}
use thing_directory.Start.Serving.{
  HttpRequest, Answer, endpoint, call, serve, with_path_id, stopped, no_route,
}

-- A property of the handlers of a method's routes holds of the handler that is found.
module _ (test : String → Handler → Bool) where
  all_handlers : List Route → Bool
  all_handlers [] = true
  all_handlers (r ∷ rs) = test r.method r.handler && all_handlers rs

  first_match-handler :
      (matches : String → String → Option Vars) (rs : List Route) (method path : String)
      (found : Match)
      → all_handlers rs ≡ true
      → first_match matches rs method path ≡ some found
      → test method found.handler ≡ true
  unfolding first_match all_handlers
  first_match-handler matches [] method path found h e = cc
  first_match-handler matches (r ∷ rs) method path found h e =
      ground (arith, eq_iff r.method method, first_match-handler matches rs method path found)

  find-handler :
      (m : Mux) (rs : List Route) (method path : String) (found : Match)
      → IsMux m
      → all_handlers rs ≡ true
      → m.find rs method path ≡ some found
      → test method found.handler ≡ true
  find-handler m rs method path found h all e =
      first_match-handler m.matches rs method path found all (sym (h.first rs method path) ∙ e)

-- The methods that are meant to write.
abbrev pub is_writing : String → Bool
is_writing method =
    method == "POST" || (method == "PUT" || (method == "PATCH" || method == "DELETE"))

unfoldable pub writes : Endpoint → Bool
writes Endpoint.post = true
writes Endpoint.put = true
writes Endpoint.patch = true
writes Endpoint.delete = true
writes e = false

reads_only : String → Handler → Bool
reads_only method h = is_writing method || not (writes h.endpoint)

routes-reads_only : (common : List Middleware) → all_handlers reads_only (routes common) ≡ true
unfolding all_handlers routes reads_only writes
routes-reads_only common = refl

module _ (lib : Libraries) (L : LevelDb String) (schemas : List lib.Schema) (version : String) where
  pub endpoint-SameStore :
      (fuel : ℕ) (e : Endpoint) (req : HttpRequest) (vars : Vars) (c : Controller L)
      → writes e ≡ false
      → SameStore lib L c (endpoint lib L schemas version fuel e req vars c).1
  unfolding endpoint writes
  endpoint-SameStore fuel Endpoint.get req vars c h =
      ground (arith, get_one-SameStore lib L schemas (with_path_id req vars) c)
  endpoint-SameStore fuel Endpoint.get_many req vars c h =
      ground (arith, get_many-SameStore lib L schemas fuel (with_path_id req vars) c)
  endpoint-SameStore fuel Endpoint.search_json_path req vars c h =
      ground (arith, search_json_path-SameStore lib L schemas (with_path_id req vars) c)
  endpoint-SameStore fuel Endpoint.search_x_path req vars c h =
      ground (arith, search_x_path-SameStore lib L schemas (with_path_id req vars) c)
  endpoint-SameStore fuel _ req vars c h = ground arith

  module _ (passes : Middleware → HttpRequest → Bool) where
    call-SameStore :
        (fuel : ℕ) (ws : List Middleware) (e : Endpoint) (req : HttpRequest) (vars : Vars)
        (c : Controller L)
        → writes e ≡ false
        → SameStore lib L c (call lib L schemas version passes fuel ws e req vars c).1
    unfolding call
    call-SameStore fuel [] e req vars c h = endpoint-SameStore fuel e req vars c h
    call-SameStore fuel (w ∷ ws) e req vars c h =
        ground (arith, call-SameStore fuel ws e req vars c h)

    -- With a router that meets its description, a request whose method is none of POST, PUT, PATCH
    -- and DELETE, whatever its path and content and whatever the store and the libraries do, leaves
    -- the entries of the catalog as they were and calls no listener.
    pub serve-SameStore :
        (m : Mux) (common : List Middleware) (fuel : ℕ) (req : HttpRequest) (c : Controller L)
        → IsMux m
        → is_writing req.method ≡ false
        → SameStore lib L c (serve lib L schemas version passes m (routes common) fuel req c).1
    unfolding serve reads_only
    serve-SameStore m common fuel req c k h =
        elim (Option-cases (m.find (routes common) req.method req.path)) [
          | inl e ↦ rw e (refl, refl)
          | inr (found, e) ↦
              let reading =
                find-handler reads_only m (routes common) req.method req.path found k
                  (routes-reads_only common) e in
              rw e (
                call-SameStore fuel found.handler.common found.handler.endpoint req found.vars c
                  (ground arith))
        ]

-- Whether the ticket validator is called around a handler.
guarded : List Middleware → Bool
guarded [] = false
guarded (ticket_validator ∷ ws) = true
guarded (w ∷ ws) = guarded ws

is_guarded : String → Handler → Bool
is_guarded method h = guarded h.common

setup-is_guarded :
    (p : Packages) (conf : HttpConfig p) (rs : List Route)
    → p.validator_enabled conf.auth ≡ true
    → setup_http_router p conf ≡ ok rs
    → all_handlers is_guarded rs ≡ true
unfolding setup_http_router routes all_handlers is_guarded guarded
setup-is_guarded p conf rs on e = ground arith

module _ (lib : Libraries) (L : LevelDb String) (schemas : List lib.Schema) (version : String)
    (passes : Middleware → HttpRequest → Bool) where
  -- The request is answered in front of the handlers.
  abbrev pub Stops : Result Answer × Controller L → Controller L → Type 0
  Stops r c = (r ≡ (ok no_route, c)) ⊎ ((w : Middleware) × (r ≡ (ok (stopped w), c)))

  call-Stops :
      (fuel : ℕ) (ws : List Middleware) (e : Endpoint) (req : HttpRequest) (vars : Vars)
      (c : Controller L)
      → guarded ws ≡ true
      → passes ticket_validator req ≡ false
      → (w : Middleware) × (call lib L schemas version passes fuel ws e req vars c
          ≡ (ok (stopped w), c))
  unfolding call guarded
  call-Stops fuel [] e req vars c h refused = cc
  call-Stops fuel (ticket_validator ∷ ws) e req vars c h refused =
      (ticket_validator, rw refused refl)
  call-Stops fuel (w ∷ ws) e req vars c h refused = elim (Bool-cases (passes w req)) [
    | inl on ↦ rw on (call-Stops fuel ws e req vars c h refused)
    | inr off ↦ (w, rw off refl)
  ]

  -- If the ticket validator is enabled, the server has set up its routes, and the router meets its
  -- description, then a request that the ticket validator refuses, whatever its method, path and
  -- content, reaches no handler: the router or a middleware answers it, and the catalog is just as
  -- it was.
  pub serve-Stops :
      (p : Packages) (conf : HttpConfig p) (rs : List Route) (m : Mux) (fuel : ℕ)
      (req : HttpRequest) (c : Controller L)
      → p.validator_enabled conf.auth ≡ true
      → setup_http_router p conf ≡ ok rs
      → IsMux m
      → passes ticket_validator req ≡ false
      → Stops (serve lib L schemas version passes m rs fuel req c) c
  unfolding serve is_guarded
  serve-Stops p conf rs m fuel req c on e k refused =
      elim (Option-cases (m.find rs req.method req.path)) [
        | inl f ↦ inl (rw f refl)
        | inr (found, f) ↦
            let inside =
              find-handler is_guarded m rs req.method req.path found k
                (setup-is_guarded p conf rs on e) f in
            inr (
              rw f (
                call-Stops fuel found.handler.common found.handler.endpoint req found.vars c inside
                  refused))
      ]
