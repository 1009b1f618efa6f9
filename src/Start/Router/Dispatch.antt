-- ===== src/Start/Router/Dispatch.antt =====
-- Which route answers a request for one Thing Description.
use Prim.Native.Char.{Char}
use thing_directory.Common.{
  ◌≡◌, refl, ◌∙◌, Bool, true, false, ◌&&◌, String, Option, none, some, List, [], ◌∷◌, ◌++◌, ◌==◌,
  if◌then◌else◌, eq_iff, arith,
}
use thing_directory.Start.Router.{Route, Endpoint, Middleware, routes}
use thing_directory.Start.Router.Mux.{
  Mux, IsMux, Match, or_later, first_match, Template, fixed, variable, rest, all, segment, captures,
  template_text, is_template, after, is_line, is_fixed, is_name, at, accepts,
}

-- The first match, with the templates of the routes instead of their texts.
select : List Route → List Template → String → String → Option Match
select [] ts method path = none
select (r ∷ rs) [] method path = none
select (r ∷ rs) (t ∷ ts) method path =
    let later = select rs ts method path in
    if r.method == method then or_later r.handler (captures t path) later else later

agree : List Route → List Template → Bool
agree [] ts = true
agree (r ∷ rs) [] = false
agree (r ∷ rs) (t ∷ ts) = r.path == template_text t && (is_template t && agree rs ts)

module _ (m : Mux) (h : IsMux m) where
  first_match-select :
      (rs : List Route) (ts : List Template) (method path : String)
      → agree rs ts ≡ true
      → first_match m.matches rs method path ≡ select rs ts method path
  unfolding first_match select agree
  first_match-select [] ts method path e = refl
  first_match-select (r ∷ rs) [] method path e = absurd (ground arith)
  first_match-select (r ∷ rs) (t ∷ ts) method path e =
      ground (
        arith,
        eq_iff r.path (template_text t),
        h.reads t path,
        first_match-select rs ts method path,
      )

abbrev slashed : String → List Template
slashed s = fixed s ∷ fixed (at s "/") ∷ []

abbrev with_rest : String → String → List Template
with_rest s name = variable s name rest false ∷ variable s name rest true ∷ []

templates : List Template
templates =
    slashed "/"
    ++ (variable "/" "path" all false ∷ variable "/" "path" all true ∷ [])
    ++ slashed "/openapi-spec-proxy"
    ++ with_rest "/openapi-spec-proxy/" "basepath"
    ++ slashed "/td"
    ++ slashed "/td-chunked"
    ++ slashed "/td"
    ++ with_rest "/td/" "id"
    ++ with_rest "/td/" "id"
    ++ with_rest "/td/" "id"
    ++ with_rest "/td/" "id"
    ++ slashed "/things"
    ++ with_rest "/things/" "id"
    ++ with_rest "/things/" "id"
    ++ with_rest "/things/" "id"
    ++ with_rest "/things/" "id"
    ++ slashed "/things"
    ++ slashed "/search/jsonpath"
    ++ slashed "/search/xpath"
    ++ slashed "/validation"
    ++ slashed "/events"
    ++ variable "/events/" "type" segment false ∷ variable "/events/" "type" segment true ∷ []

routes-agree : (common : List Middleware) → agree (routes common) templates ≡ true
unfolding agree routes templates is_fixed is_name
routes-agree common = refl

-- The operations on one Thing Description, and the two prefixes of their paths.
pub data Operation : Type 0 where
  get put patch delete : Operation

abbrev pub method_of : Operation → String
method_of get = "GET"
method_of put = "PUT"
method_of patch = "PATCH"
method_of delete = "DELETE"

abbrev pub endpoint_of : Operation → Endpoint
endpoint_of get = Endpoint.get
endpoint_of put = Endpoint.put
endpoint_of patch = Endpoint.patch
endpoint_of delete = Endpoint.delete

pub data Collection : Type 0 where
  td things : Collection

abbrev pub path_of : Collection → String → String
path_of td id = at "/td/" id
path_of things id = at "/things/" id

module _ (common : List Middleware) where
  abbrev pub item : Operation → String → Match
  item op id = record {
    handler = record { common = common; endpoint = endpoint_of op };
    vars = ("id", id) ∷ [];
  }

  select-item :
      (op : Operation) (c : Collection) (x : Char) (s : String)
      → is_line (String.◌∷◌ x s) ≡ true
      → select (routes common) templates (method_of op) (path_of c (String.◌∷◌ x s))
        ≡ some (item op (String.◌∷◌ x s))
  unfolding select routes templates after is_fixed
  select-item get td x s e = rw e
  select-item put td x s e = rw e
  select-item patch td x s e = rw e
  select-item delete td x s e = rw e
  select-item get things x s e = rw e
  select-item put things x s e = rw e
  select-item patch things x s e = rw e
  select-item delete things x s e = rw e

module _ (m : Mux) (h : IsMux m) (common : List Middleware) where
  -- theorem
  pub find-item :
      (op : Operation) (c : Collection) (id : String)
      → accepts rest id ≡ true
      → m.find (routes common) (method_of op) (path_of c id) ≡ some (item common op id)
  find-item op c String.[] e = cc
  find-item op c (String.◌∷◌ x s) e =
      h.first (routes common) (method_of op) (path_of c (String.◌∷◌ x s))
      ∙ first_match-select m h (routes common) templates (method_of op) (path_of c (String.◌∷◌ x s))
          (routes-agree common)
      ∙ select-item common op c x s e
