-- ===== src/Start/Serving.antt =====
-- The server of main.go, from a request to the handler that answers it: the router finds the route, its
-- middleware is called, and the handler behind that has the variables of the path.
pub mod Effects
pub mod RoundTrip
pub mod Invariant
use thing_directory.Common.{
  ℕ, Bool, true, false, String, Option, none, some, List, [], ◌∷◌, ◌==◌, if◌then◌else◌,
}
use thing_directory.Common.Order.{text_order}
use thing_directory.Errors.{Io, Result, ok, err, panicked}
use thing_directory.Exec.{Exec, pure}
use thing_directory.LevelDb.{LevelDb}
use thing_directory.Libraries.{Libraries}
use thing_directory.Catalog.Controller.{Controller}
use thing_directory.Catalog.Responses.{Response}
use thing_directory.Catalog.Http.{Request, post, get_one, put, patch, delete}
use thing_directory.Catalog.Http.Queries.{
  get_many, get_all, search_json_path, search_x_path, get_validation,
}
use thing_directory.Notification.Sse.{SubscribeRequest, Subscription, subscribe_event}
use thing_directory.Start.Pages.{IndexData, SpecAnswer, Page, index_handler, api_spec_proxy}
use thing_directory.Start.Router.{Endpoint, Middleware, Route, Handler}
use thing_directory.Start.Router.Mux.{Mux, Vars, Match}

-- A request, and what the handlers read of it besides the variables of its path: the answer of the server
-- of the specification, and when the client of a stream is gone.
pub record HttpRequest : Type 0 where
  pub method : String
  pub path : String
  pub content : Request
  pub subscription : SubscribeRequest
  pub spec : Io SpecAnswer
  pub cancelled : ℕ → Bool
  pub gone : ℕ → Bool

pub data Answer : Type 0 where
  response : Response → Answer
  index : IndexData → Answer
  -- the status 200 and nothing else
  options : Answer
  spec : Page → Answer
  subscribed : Subscription → Answer
  -- a middleware answers the request itself
  stopped : Middleware → Answer
  -- the router's own answer
  no_route : Answer

-- mux.Vars(req)[name]
abbrev pub var : String → Vars → String
var name [] = ""
var name ((n, value) ∷ vars) = if n == name then value else var name vars

abbrev pub with_path_id : HttpRequest → Vars → Request
with_path_id req vars = record req.content { id = var "id" vars }

abbrev pub answer_of : Result Response → Result Answer
answer_of (ok a) = ok (response a)
answer_of (err e) = err e
answer_of (panicked m) = panicked m

module _ (lib : Libraries) (L : LevelDb String) (schemas : List lib.Schema) (version : String) where
  abbrev pub answered : Result Response × Controller L → Result Answer × Controller L
  answered r = (answer_of r.0, r.1)

  -- The fuel is that of `get_many`.
  unfoldable pub endpoint : ℕ → Endpoint → HttpRequest → Vars → Exec (Controller L) Answer
  endpoint fuel Endpoint.index_handler req vars c = (ok (index (index_handler version)), c)
  endpoint fuel Endpoint.options_handler req vars c = (ok options, c)
  endpoint fuel Endpoint.api_spec_proxy req vars c =
      (ok (spec (api_spec_proxy version (var "basepath" vars) req.spec)), c)
  endpoint fuel Endpoint.get_many req vars c =
      answered (get_many lib L schemas fuel (with_path_id req vars) c)
  endpoint fuel Endpoint.get_all req vars c =
      (ok (response (get_all lib L schemas req.cancelled req.gone (with_path_id req vars) c)), c)
  endpoint fuel Endpoint.post req vars c = answered (post lib L schemas (with_path_id req vars) c)
  endpoint fuel Endpoint.get req vars c = answered (get_one lib L schemas (with_path_id req vars) c)
  endpoint fuel Endpoint.put req vars c = answered (put lib L schemas (with_path_id req vars) c)
  endpoint fuel Endpoint.patch req vars c = answered (patch lib L schemas (with_path_id req vars) c)
  endpoint fuel Endpoint.delete req vars c =
      answered (delete lib L schemas (with_path_id req vars) c)
  endpoint fuel Endpoint.search_json_path req vars c =
      answered (search_json_path lib L schemas (with_path_id req vars) c)
  endpoint fuel Endpoint.search_x_path req vars c =
      answered (search_x_path lib L schemas (with_path_id req vars) c)
  endpoint fuel Endpoint.get_validation req vars c =
      (ok (response (get_validation lib L schemas (with_path_id req vars))), c)
  endpoint fuel Endpoint.subscribe_event req vars c = (
    ok (subscribed (subscribe_event version (record req.subscription { type = var "type" vars }))),
    c,
  )

  -- `passes` says whether a middleware calls the handler behind it.
  module _ (passes : Middleware → HttpRequest → Bool) where
    unfoldable pub call :
        ℕ → List Middleware → Endpoint → HttpRequest → Vars → Exec (Controller L) Answer
    call fuel [] e req vars = endpoint fuel e req vars
    call fuel (w ∷ ws) e req vars =
        let behind = call fuel ws e req vars in if passes w req then behind else pure (stopped w)

    abbrev pub call_match : ℕ → HttpRequest → Option Match → Exec (Controller L) Answer
    call_match fuel req none = pure no_route
    call_match fuel req (some found) =
        call fuel found.handler.common found.handler.endpoint req found.vars

    unfoldable pub serve : Mux → List Route → ℕ → HttpRequest → Exec (Controller L) Answer
    serve m rs fuel req = call_match fuel req (m.find rs req.method req.path)
