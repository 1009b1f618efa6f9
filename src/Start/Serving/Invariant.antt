-- ===== src/Start/Serving/Invariant.antt =====
-- A request, whatever its method and its path, keeps the catalog well formed.
use thing_directory.Common.{
  ℕ, ◌≡◌, refl, Bool, String, some, List, [], ◌∷◌, Option-cases, Bool-cases, inl, inr, sym, All,
}
use mathlib.Core.Path.{subst}
use thing_directory.Common.Order.{text_order}
use thing_directory.LevelDb.{LevelDb}
use thing_directory.Libraries.{Libraries}
use thing_directory.Catalog.Stored.{IsStored, IsCatalog}
use thing_directory.Catalog.Controller.{Controller}
use thing_directory.Catalog.Http.Invariant.{
  KeepsId, post-IsCatalog, put-IsCatalog, patch-IsCatalog, delete-IsCatalog,
}
use thing_directory.Catalog.Http.Safe.{SameStore}
use thing_directory.Time.{Time}
use thing_directory.Catalog.Expiry.{clean_expired}
use thing_directory.Catalog.Http.Steps.{clean-IsCatalog}
use thing_directory.Start.Router.{Endpoint, Middleware, Route}
use thing_directory.Start.Router.Mux.{Mux, Vars, Match}
use thing_directory.Start.Serving.{HttpRequest, with_path_id, endpoint, call, serve}
use thing_directory.Start.Serving.Effects.{writes, endpoint-SameStore}

module _ (lib : Libraries) (L : LevelDb String) (schemas : List lib.Schema) (version : String) where
  SameStore-IsCatalog :
      (c d : Controller L)
      → SameStore lib L c d
      → IsCatalog lib.rfc L c.storage
      → IsCatalog lib.rfc L d.storage
  SameStore-IsCatalog c d same h = record {
    each = subst (λ db. All (λ e. IsStored lib.rfc e.0 e.1) (L.contents db)) (sym same.0) h.each;
  }

  -- A handler that patches is given a patch that keeps the id of the path.
  abbrev pub KeepsIdAt : HttpRequest → Controller L → Endpoint → Vars → Type 0
  KeepsIdAt req c e vars = e ≡ Endpoint.patch → KeepsId lib L schemas (with_path_id req vars) c

  endpoint-IsCatalog :
      (fuel : ℕ) (e : Endpoint) (req : HttpRequest) (vars : Vars) (c : Controller L)
      → KeepsIdAt req c e vars
      → IsCatalog lib.rfc L c.storage
      → IsCatalog lib.rfc L (endpoint lib L schemas version fuel e req vars c).1.storage
  unfolding endpoint writes
  endpoint-IsCatalog fuel Endpoint.post req vars c k h =
      post-IsCatalog lib L schemas (with_path_id req vars) c h
  endpoint-IsCatalog fuel Endpoint.put req vars c k h =
      put-IsCatalog lib L schemas (with_path_id req vars) c h
  endpoint-IsCatalog fuel Endpoint.patch req vars c k h =
      patch-IsCatalog lib L schemas (with_path_id req vars) c h (k refl)
  endpoint-IsCatalog fuel Endpoint.delete req vars c k h =
      delete-IsCatalog lib L schemas (with_path_id req vars) c h
  endpoint-IsCatalog fuel e req vars c k h =
      SameStore-IsCatalog c _ (endpoint-SameStore lib L schemas version fuel e req vars c refl) h

  module _ (passes : Middleware → HttpRequest → Bool) where
    call-IsCatalog :
        (fuel : ℕ) (ws : List Middleware) (e : Endpoint) (req : HttpRequest) (vars : Vars)
        (c : Controller L)
        → KeepsIdAt req c e vars
        → IsCatalog lib.rfc L c.storage
        → IsCatalog lib.rfc L (call lib L schemas version passes fuel ws e req vars c).1.storage
    unfolding call
    call-IsCatalog fuel [] e req vars c k h = endpoint-IsCatalog fuel e req vars c k h
    call-IsCatalog fuel (w ∷ ws) e req vars c k h = elim (Bool-cases (passes w req)) [
      | inl on ↦ rw on (call-IsCatalog fuel ws e req vars c k h)
      | inr off ↦ rw off h
    ]

    module _ (m : Mux) (rs : List Route) (fuel : ℕ) where
      -- If the request is a PATCH, it keeps the id of its path.
      abbrev pub Admissible : HttpRequest → Controller L → Type 0
      Admissible req c =
          (found : Match)
          → m.find rs req.method req.path ≡ some found
          → KeepsIdAt req c found.handler.endpoint found.vars

      serve-IsCatalog :
          (req : HttpRequest) (c : Controller L)
          → Admissible req c
          → IsCatalog lib.rfc L c.storage
          → IsCatalog lib.rfc L (serve lib L schemas version passes m rs fuel req c).1.storage
      unfolding serve
      serve-IsCatalog req c k h = elim (Option-cases (m.find rs req.method req.path)) [
        | inl e ↦ rw e h
        | inr (found, e) ↦ rw e (
            call-IsCatalog fuel found.handler.common found.handler.endpoint req found.vars c
              (k found e) h)
      ]

      -- The life of the server: requests, and rounds of the removal.
      pub data Serves (c : Controller L) : Controller L → Type 0 where
        starts : Serves c c
        answers :
            {d : Controller L} (req : HttpRequest)
            → Serves c d
            → Admissible req d
            → Serves c (serve lib L schemas version passes m rs fuel req d).1
        cleans :
            {d : Controller L} (t : Time)
            → Serves c d
            → Serves c (record d { storage = (clean_expired lib L t d.storage).1 })

      -- From a well-formed catalog (each entry is the text of a JSON object whose id is the entry's
      -- key and whose registration can be read), any sequence of HTTP requests, with any methods,
      -- paths and contents, and of rounds of the removal, leads to well-formed catalogs only, if
      -- each request that reaches the handler of PATCH keeps the id of its path.
      pub Serves-IsCatalog :
          (c d : Controller L)
          → IsCatalog lib.rfc L c.storage
          → Serves c d
          → IsCatalog lib.rfc L d.storage
      Serves-IsCatalog c d h starts = h
      Serves-IsCatalog c d h (answers {d = b} req w k) =
          serve-IsCatalog req b k (Serves-IsCatalog c b h w)
      Serves-IsCatalog c d h (cleans {d = b} t w) =
          clean-IsCatalog lib L schemas t b.storage (Serves-IsCatalog c b h w)
