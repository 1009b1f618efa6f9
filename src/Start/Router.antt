-- ===== src/Start/Router.antt =====
-- router.go and setupHTTPRouter of main.go: the routes in the order in which they are registered, which is
-- that in which the router tries them, and the middleware around each handler.
pub mod Mux
pub mod Dispatch
use Prim.Native.String.{◌++◌ as text_append}
use thing_directory.Common.{
  Bool, true, not, ◌&&◌, String, none, some, List, [], ◌∷◌, ◌++◌, ◌==◌, any, if◌then◌else◌, ◌≡◌,
  refl,
}
use thing_directory.Errors.{plain, Result, ok, err, panicked}
use thing_directory.Start.Packages.{Packages}
use thing_directory.Start.Config.{HttpConfig}

pub data Endpoint : Type 0 where
  index_handler options_handler api_spec_proxy : Endpoint
  get_many get_all post get put patch delete : Endpoint
  search_json_path search_x_path get_validation subscribe_event : Endpoint

-- The handlers that are called around an endpoint, the outermost first.
pub data Middleware : Type 0 where
  clear_handler cors_handler ticket_validator : Middleware

-- commonHandlers.ThenFunc
pub record Handler : Type 0 where
  pub common : List Middleware
  pub endpoint : Endpoint

pub record Route : Type 0 where
  pub method : String
  pub path : String
  pub handler : Handler

-- The methods of the router register a path without and with a slash at its end.
unfoldable pub both : String → String → Handler → List Route
both method path handler =
    record { method = method; path = path; handler = handler }
    ∷ record { method = method; path = text_append path "/"; handler = handler }
    ∷ []

module _ (common : List Middleware) where
  abbrev then_func : Endpoint → Handler
  then_func endpoint = record { common = common; endpoint = endpoint }

  unfoldable pub routes : List Route
  unfolding both
  routes =
      both "GET" "/" (then_func Endpoint.index_handler)
      ++ both "OPTIONS" "/{path:.*}" (then_func Endpoint.options_handler)
      ++ both "GET" "/openapi-spec-proxy" (then_func Endpoint.api_spec_proxy)
      ++ both "GET" "/openapi-spec-proxy/{basepath:.+}" (then_func Endpoint.api_spec_proxy)
      ++ both "GET" "/td" (then_func Endpoint.get_many)
      ++ both "GET" "/td-chunked" (then_func Endpoint.get_all)
      ++ both "POST" "/td" (then_func Endpoint.post)
      ++ both "GET" "/td/{id:.+}" (then_func Endpoint.get)
      ++ both "PUT" "/td/{id:.+}" (then_func Endpoint.put)
      ++ both "PATCH" "/td/{id:.+}" (then_func Endpoint.patch)
      ++ both "DELETE" "/td/{id:.+}" (then_func Endpoint.delete)
      ++ both "POST" "/things" (then_func Endpoint.post)
      ++ both "PUT" "/things/{id:.+}" (then_func Endpoint.put)
      ++ both "GET" "/things/{id:.+}" (then_func Endpoint.get)
      ++ both "PATCH" "/things/{id:.+}" (then_func Endpoint.patch)
      ++ both "DELETE" "/things/{id:.+}" (then_func Endpoint.delete)
      ++ both "GET" "/things" (then_func Endpoint.get_all)
      ++ both "GET" "/search/jsonpath" (then_func Endpoint.search_json_path)
      ++ both "GET" "/search/xpath" (then_func Endpoint.search_x_path)
      ++ both "GET" "/validation" (then_func Endpoint.get_validation)
      ++ both "GET" "/events" (then_func Endpoint.subscribe_event)
      ++ both "GET" "/events/{type}" (then_func Endpoint.subscribe_event)

-- The ticket validator is appended if it is enabled.
abbrev pub common_handlers : (p : Packages) → HttpConfig p → Result (List Middleware)
common_handlers p c =
    let common = clear_handler ∷ cors_handler ∷ [] in
    if p.validator_enabled c.auth
    then elim (p.setup_validator c.auth) [
      | some m ↦ err (plain m)
      | none ↦ ok (common ++ ticket_validator ∷ [])
    ]
    else ok common

abbrev pub with_routes : Result (List Middleware) → Result (List Route)
with_routes (ok common) = ok (routes common)
with_routes (err e) = err e
with_routes (panicked m) = panicked m

unfoldable pub setup_http_router : (p : Packages) → HttpConfig p → Result (List Route)
setup_http_router p c = with_routes (common_handlers p c)

-- No method and path are registered twice.
abbrev distinct : List Route → Bool
distinct [] = true
distinct (r ∷ rs) = not (any (λ s. s.method == r.method && s.path == r.path) rs) && distinct rs

distinct_test : distinct (routes []) ≡ true
unfolding routes
distinct_test = refl
