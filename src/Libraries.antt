-- ===== src/Libraries.antt =====
-- The packages that the directory calls and does not contain, as parameters: JSON Schema validation
-- (xeipuuv/gojsonschema), merge patches (evanphx/json-patch), JSONPath (bhmj/jsonslice), XPath
-- (antchfx/jsonquery), paging (linksmart/service-catalog utils), and the text of times.
use thing_directory.Common.{ℕ, ◌+◌, ◌-◌, ◌*◌, ◌≤◌, ◌≡◌, ◌⊎◌, Bool, String, Option, List, min}
use thing_directory.Time.{Rfc3339, Float64}
use thing_directory.Wot.{ValidationIssue}
use thing_directory.Errors.{Io, done}
use thing_directory.Json.{Fields, Value, Bytes}

-- jsonquery.Node, as far as it is read: its type, its name or text, and its children in order.
mutual
  pub data Node : Type 0 where
    text_node : String → Node
    element : String → Children → Node

  pub data Children : Type 0 where
    none : Children
    child : Node → Children → Children

pub record Libraries : Type 1 where
  pub rfc : Rfc3339
  pub Schema : Type 0
  pub read_schema : String → Io Schema
  -- Validate: whether the result is valid, and its errors
  pub schema_validate : Schema → Fields → Io (Bool × List ValidationIssue)
  pub merge_patch : Bytes → Bytes → Io Bytes
  pub create_merge_patch : Bytes → Bytes → Io Bytes
  pub json_path : Bytes → String → Io Bytes
  pub parse_document : Bytes → Io Node
  pub query_all : Node → String → Io (List Node)
  -- strconv.ParseFloat and strconv.ParseBool, `none` for an error; the number is finite
  pub parse_float : String → Option Float64
  pub parse_bool : String → Option Bool
  -- the float64 that reads a printed int
  pub int_value : ℕ → Value
  -- GetPagingAttr total page per_page max_per_page: the offset and the limit
  pub paging : ℕ → ℕ → ℕ → ℕ → Io (ℕ × ℕ)
  -- ParsePagingParams page per_page max_per_page
  pub parse_paging : String → String → ℕ → Io (ℕ × ℕ)

-- What GetPagingAttr is for: a subset of the whole, and, of a valid page, the elements from
-- per_page * (page - 1) on, per_page of them at most.
pub record IsPaging (lib : Libraries) : Type 0 where
  pub subset :
      (total page per_page most : ℕ) {o l : ℕ}
      → lib.paging total page per_page most ≡ done (o, l)
      → o + l ≤ total
  pub pages :
      (total page per_page most : ℕ)
      → 1 ≤ page
      → 1 ≤ per_page
      → per_page ≤ most
      → (o : ℕ) × (l : ℕ) × (lib.paging total page per_page most ≡ done (o, l))
        × (l ≡ min per_page (total - per_page * (page - 1)))
        × ((l ≡ 0) ⊎ (o ≡ per_page * (page - 1)))
