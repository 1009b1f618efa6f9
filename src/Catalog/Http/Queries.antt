-- ===== src/Catalog/Http/Queries.antt =====
-- catalog/http.go: the handlers that list, search and validate.
use Prim.Native.String.{◌++◌ as text_append}
use thing_directory.Common.{
  eqb, ℕ, ◌+◌, Bool, true, false, not, ◌&&◌, String, none, some, List, [], ◌∷◌, ◌++◌, map, ◌==◌,
  if◌then◌else◌,
}
use thing_directory.Common.Order.{text_order}
use thing_directory.Wot.{ValidationIssue, media_type_json, media_type_json_ld}
use thing_directory.Wot.Validation.{validate_against_schemas}
use thing_directory.Errors.{Result, error_text, ok, err, panicked, done, fault}
use thing_directory.Exec.{Exec, pure}
use thing_directory.Json.{
  Value, null, boolean, text, array, object, ThingDescription, Fields, end, field, of_items,
  of_fields, lbrack, rbrack, comma, Bytes,
}
use thing_directory.Json.Print.{marshal}
use thing_directory.Json.Parse.{unmarshal_map}
use thing_directory.LevelDb.{LevelDb}
use thing_directory.Libraries.{Libraries}
use thing_directory.Catalog.Storage.{max_per_page}
use thing_directory.Catalog.Controller
use thing_directory.Catalog.Controller.{Controller}
use thing_directory.Catalog.Filter
use thing_directory.Catalog.Responses.{
  Response, payload, status_ok, status_bad_request, status_internal_server_error,
}
use thing_directory.Catalog.Http.{Request, fails, query_error, read_body, or_else, attempt, Handler}

module _ (lib : Libraries) (L : LevelDb String) (schemas : List lib.Schema) where
  -- The items of a page, and the total: what the query parameters ask for.
  abbrev as_values : List ThingDescription × ℕ → List Value × ℕ
  as_values r = (map object r.0, r.1)

  -- A search over an empty catalog returns a nil slice, which is printed as null.
  abbrev is_nothing : Result (List ThingDescription × ℕ) → Bool
  is_nothing (ok all) = eqb all.1 0
  is_nothing _ = false

  abbrev items_value : ℕ → Request → List Value → Controller L → Value
  items_value fuel req vs c =
      if req.form "jsonpath" == "" && req.form "xpath" == ""
      then array (of_items vs)
      else if is_nothing (Controller.list_all lib L schemas fuel c).0
      then null
      else array (of_items vs)

  abbrev page_body : ℕ → ℕ → Value → ℕ → Fields
  page_body page per_page found total = of_fields (
      ("@context", text "https://linksmart.eu/thing-directory/context.jsonld")
      ∷ ("@type", text "Catalog")
      ∷ ("items", found)
      ∷ ("page", lib.int_value page)
      ∷ ("perPage", lib.int_value per_page)
      ∷ ("total", lib.int_value total)
      ∷ [])

  -- The branches of `GetMany`; the fuel is that of the controller's `listAll`.
  abbrev selected : ℕ → Request → ℕ → ℕ → Exec (Controller L) (List Value × ℕ)
  selected fuel req page per_page =
      if not (req.form "jsonpath" == "")
      then Filter.filter_json_path lib L schemas fuel (req.form "jsonpath") page per_page
      else if not (req.form "xpath" == "")
      then Filter.filter_x_path lib L schemas fuel (req.form "xpath") page per_page
      else λ c.
          let r = Controller.list lib L schemas page per_page c in
          (elim r.0 [ ok tds ↦ ok (as_values tds) | err e ↦ err e | panicked m ↦ panicked m ], r.1)

  abbrev query_headers : Request → List (String × String)
  query_headers req =
      if not (req.form "jsonpath" == "")
      then ("X-Request-Jsonpath", req.form "jsonpath") ∷ []
      else if not (req.form "xpath" == "")
      then ("X-Request-Xpath", req.form "xpath") ∷ []
      else []

  unfoldable pub get_page : ℕ → Request → ℕ → ℕ → Handler lib L schemas
  unfolding query_error
  get_page fuel req page per_page =
      attempt (selected fuel req page per_page) (λ e. pure (query_error req e))
        λ r c.
          or_else
            (marshal lib.rfc (object (page_body page per_page (items_value fuel req r.0 c) r.1)))
            (pure (fails req status_internal_server_error "json"))
            (λ bytes. pure (record {
              status = status_ok;
              headers =
                  query_headers req
                  ++ ("Content-Type", media_type_json_ld) ∷ ("X-Request-URL", req.uri) ∷ [];
              body = payload bytes;
            }))
            c

  abbrev is_deprecated : Request → Bool
  is_deprecated req =
      req.form "jsonpath" == "" && (req.form "xpath" == "" && not (req.form "fetch" == ""))

  unfoldable pub get_many : ℕ → Request → Handler lib L schemas
  unfolding get_page
  get_many fuel req = elim req.form_error [
    | some m ↦ pure (fails req status_bad_request (text_append "Error parsing the query:" m))
    | none ↦ elim (lib.parse_paging (req.form "page") (req.form "per_page") max_per_page) [
      | fault m ↦
          pure (fails req status_bad_request (text_append "Error parsing query parameters:" m))
      | done window ↦
          if not (req.form "jsonpath" == "") && not (req.form "xpath" == "")
          then pure
              (fails req status_bad_request "query with jsonpath should not be mixed with xpath")
          else if is_deprecated req
          then pure (
              fails req status_bad_request
                "fetch query parameter is deprecated. Use jsonpath or xpath")
          else get_page fuel req window.0 window.1
    ]
  ]

  -- What `GetAll` writes of the items that it receives; a client that is gone at one of them ends it.
  unfoldable pub chunks : (ℕ → Bool) → ℕ → Bool → List Bytes → Bytes
  chunks gone i first [] = rbrack ∷ []
  chunks gone i first (item ∷ more) =
      let rest = chunks gone (i + 1) false more in
      if gone i then [] else (if first then item else comma ∷ item) ++ rest

  -- `cancelled` is read by the storage's loop, and `gone` by the handler's.
  unfoldable pub get_all : (ℕ → Bool) → (ℕ → Bool) → Request → Controller L → Response
  unfolding chunks
  get_all cancelled gone req c = record {
    status = status_ok;
    headers = ("Content-Type", media_type_json_ld) ∷ ("X-Content-Type-Options", "nosniff") ∷ [];
    body =
        payload (lbrack ∷ chunks gone 0 true (Controller.iterate_bytes lib L schemas cancelled c));
  }

  -- `SearchJSONPath` and `SearchXPath`, which differ in the call alone.
  abbrev search_by : (String → Exec (Controller L) Bytes) → Request → Handler lib L schemas
  search_by filter req = elim req.form_error [
    | some m ↦ pure (fails req status_bad_request (text_append "Error parsing the query: " m))
    | none ↦
        if req.form "query" == ""
        then pure (fails req status_bad_request "No value for query argument")
        else attempt (filter (req.form "query")) (λ e. pure (query_error req e))
            λ bytes. pure (record {
              status = status_ok;
              headers =
                  ("X-Request-Query", req.form "query")
                  ∷ ("Content-Type", media_type_json)
                  ∷ ("X-Request-URL", req.uri)
                  ∷ [];
              body = payload bytes;
            })
  ]

  unfoldable pub search_json_path : Request → Handler lib L schemas
  unfolding query_error
  search_json_path req = search_by (Filter.filter_json_path_bytes lib L schemas) req

  unfoldable pub search_x_path : Request → Handler lib L schemas
  unfolding query_error
  search_x_path req = search_by (Filter.filter_x_path_bytes lib L schemas) req

  abbrev issue_texts : List ValidationIssue → List Value
  issue_texts [] = []
  issue_texts (issue ∷ issues) =
      text (text_append issue.field (text_append ": " issue.descr)) ∷ issue_texts issues

  abbrev is_empty : {A : Type 0} → List A → Bool
  is_empty [] = true
  is_empty (x ∷ xs) = false

  -- ValidationResult: `errors` is null when there is none.
  unfoldable pub validation_result : List ValidationIssue → Fields
  validation_result issues =
      field "errors" (if is_empty issues then null else array (of_items (issue_texts issues)))
        (field "valid" (boolean (is_empty issues)) end)

  unfoldable pub get_validation : Request → Response
  unfolding validation_result
  get_validation req =
      read_body req req.body (λ m. fails req status_bad_request m)
        λ bytes.
          if is_empty bytes
          then fails req status_bad_request "Empty request body"
          else or_else (unmarshal_map bytes)
              (fails req status_bad_request "Error processing the request: ")
              λ td. elim (validate_against_schemas lib td schemas) [
                | ok issues ↦
                    or_else (marshal lib.rfc (object (validation_result issues)))
                      (fails req status_internal_server_error "json")
                      λ result. record {
                        status = status_ok;
                        headers = ("Content-Type", media_type_json) ∷ [];
                        body = payload result;
                      }
                | err e ↦ fails req status_internal_server_error (error_text e)
                | panicked m ↦ fails req status_internal_server_error m
              ]
