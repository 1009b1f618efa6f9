-- ===== src/Catalog/Filter.antt =====
-- The searches of catalog/controller.go: JSONPath and XPath over the serialized catalog.
pub mod Pages
use Prim.Native.String.{◌++◌ as text_append}
use thing_directory.Common.{
  ℕ, ◌+◌, String, Option, none, some, List, [], map, ◌==◌, leb, eqb, if◌then◌else◌, length, take,
  drop,
}
use thing_directory.Common.Order.{text_order}
use thing_directory.Errors.{bad_request, plain, Result, ok, err, panicked, Io, done, fault}
use thing_directory.Exec.{Exec, pure, lift, ◌>>=◌}
use thing_directory.Json.{
  Value, null, boolean, number, text, array, object, Items, nil, cons, Fields, end, put, items,
  of_items, Bytes, ThingDescription,
}
use thing_directory.Json.Print.{marshal}
use thing_directory.Json.Parse.{unmarshal}
use thing_directory.LevelDb.{LevelDb}
use thing_directory.Libraries.{Libraries, Node, text_node, element, Children, none, child}
use thing_directory.Catalog.Storage.{or_json_error, max_per_page}
use thing_directory.Catalog.Controller.{Controller, list_all, list_all_bytes}

-- A library's error becomes a BadRequestError, or a plain one.
abbrev or_bad_request {ℓ} : {A : Type ℓ} → String → Io A → Result A
or_bad_request prefix (done a) = ok a
or_bad_request prefix (fault m) = err (bad_request (text_append prefix m))

abbrev or_plain {ℓ} : {A : Type ℓ} → String → Io A → Result A
or_plain prefix (done a) = ok a
or_plain prefix (fault m) = err (plain (text_append prefix m))

-- results[offset : offset+limit]
abbrev pub slice : {A : Type 0} → ℕ → ℕ → List A → Result (List A)
slice offset limit results =
    if leb (offset + limit) (length results)
    then ok (take limit (drop offset results))
    else panicked "slice bounds out of range"

-- Into a []interface{}: null leaves it nil.
abbrev slice_of : Option Value → Option (List Value)
slice_of (some (array vs)) = some (items vs)
slice_of (some null) = some []
slice_of _ = none

abbrev data_of : Node → String
data_of (text_node s) = s
data_of (element name children) = name

module _ (basic_type : String → Value) where
  -- getObjectFromXPathNode. An array has children without a name; the loop over a map's children
  -- ends at the first text.
  unfoldable mutual
    pub object_from_node : Node → Value
    object_from_node (text_node s) = basic_type s
    object_from_node (element name none) = object end
    object_from_node (element name (child first rest)) =
        let elements = array (cons (object_from_node first) (array_from_children rest)) in
        let members = map_from_children (child first rest) end in
        if data_of first == "" then elements else members

    pub array_from_children : Children → Items
    array_from_children none = nil
    array_from_children (child n rest) = cons (object_from_node n) (array_from_children rest)

    pub map_from_children : Children → Fields → Value
    map_from_children none members = object members
    map_from_children (child (text_node s) rest) members = basic_type s
    map_from_children (child (element name children) rest) members =
        map_from_children rest (put name (object_from_node (element name children)) members)

-- basicTypeFromXPathStr
unfoldable pub basic_type_from_x_path_str : Libraries → String → Value
basic_type_from_x_path_str lib s = elim (lib.parse_float s) [
  | some x ↦ number x
  | none ↦ elim (lib.parse_bool s) [ some b ↦ boolean b | none ↦ text s ]
]

module _ (lib : Libraries) (L : LevelDb String) (schemas : List lib.Schema) where
  -- The last part of both deprecated searches.
  abbrev pub paginate : List Value → ℕ → ℕ → Result (List Value × ℕ)
  paginate results page per_page =
      elim (or_bad_request "unable to paginate: "
        (lib.paging (length results) page per_page max_per_page)) [
          | ok window ↦ elim (slice window.0 window.1 results) [
            | ok chosen ↦ ok (chosen, length results)
            | err e ↦ err e
            | panicked m ↦ panicked m
          ]
          | err e ↦ err e
          | panicked m ↦ panicked m
        ]

  abbrev marshal_all : List ThingDescription → Result Bytes
  marshal_all tds = or_json_error (marshal lib.rfc (array (of_items (map object tds))))

  -- The fuel is that of `list_all`.
  unfoldable pub filter_json_path : ℕ → String → ℕ → ℕ → Exec (Controller L) (List Value × ℕ)
  filter_json_path fuel path page per_page = do
    all ← list_all lib L schemas fuel
    if eqb all.1 0 then pure ([], 0) else do
      bytes ← lift (marshal_all all.0)
      found ← lift (or_bad_request "error evaluating jsonpath: " (lib.json_path bytes path))
      results ← lift (or_json_error (slice_of (unmarshal found)))
      lift (paginate results page per_page)

  unfoldable pub filter_json_path_bytes : String → Exec (Controller L) Bytes
  filter_json_path_bytes query = do
    bytes ← list_all_bytes lib L schemas
    lift (or_bad_request "error evaluating jsonpath: " (lib.json_path bytes query))

  unfoldable pub filter_x_path : ℕ → String → ℕ → ℕ → Exec (Controller L) (List Value × ℕ)
  unfolding object_from_node basic_type_from_x_path_str
  filter_x_path fuel path page per_page = do
    all ← list_all lib L schemas fuel
    if eqb all.1 0 then pure ([], 0) else do
      bytes ← lift (marshal_all all.0)
      doc ← lift (
          or_plain "error parsing serialized input for xpath filtering: "
            (lib.parse_document bytes))
      nodes ← lift (or_bad_request "error filtering input with xpath: " (lib.query_all doc path))
      lift (paginate (map (object_from_node (basic_type_from_x_path_str lib)) nodes) page per_page)

  unfoldable pub filter_x_path_bytes : String → Exec (Controller L) Bytes
  unfolding object_from_node basic_type_from_x_path_str
  filter_x_path_bytes path = do
    bytes ← list_all_bytes lib L schemas
    doc ←
        lift (
          or_plain "error parsing serialized input for xpath filtering: "
            (lib.parse_document bytes))
    nodes ← lift (or_bad_request "error filtering input with xpath: " (lib.query_all doc path))
    lift (
        or_json_error (
          marshal lib.rfc
            (array (of_items (map (object_from_node (basic_type_from_x_path_str lib)) nodes)))))
