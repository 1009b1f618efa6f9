-- ===== src/Catalog/Filter/Pages.antt =====
-- The pages of what a search finds among all Thing Descriptions.
use thing_directory.Common.{
  ℕ, suc, ◌+◌, ◌-◌, ◌*◌, ◌≤◌, ◌<◌, ◌≡◌, refl, sym, ap, ◌∙◌, ◌⊎◌, inl, inr, true, false, String,
  some, List, [], ◌∷◌, map, arith, length, length-drop, leb, eqb, min, take, drop, take-eq_of_le,
  Bool-cases,
}
use thing_directory.Common.Order.{text_order}
use thing_directory.Errors.{ok, done}
use thing_directory.Json.{Value, array, object, Items, items, of_items, ThingDescription, Bytes}
use thing_directory.Json.Print.{print, marshal, is_printable, are_printable}
use thing_directory.Json.Parse.{unmarshal}
use thing_directory.Json.Decoded.{unmarshal_map-IsJsonMap}
use thing_directory.LevelDb.{LevelDb, IsFaultless}
use thing_directory.Libraries.{Libraries, IsPaging, Node}
use thing_directory.Catalog.Storage.{max_per_page}
use thing_directory.Catalog.Storage.Crud.{entries}
use thing_directory.Catalog.Storage.Pages.{Holds}
use thing_directory.Catalog.Controller.{Controller}
use thing_directory.Catalog.Controller.Contents.{list_all-contents}
use thing_directory.Catalog.Http.Statuses.{IsJsonMap-have_printable}
use thing_directory.Catalog.Filter.{
  filter_json_path, filter_x_path, object_from_node, basic_type_from_x_path_str, paginate,
}

-- The page of a list, and the length of the list.
abbrev pub page_of : ℕ → ℕ → List Value → List Value × ℕ
page_of page per_page vs = (take per_page (drop (per_page * (page - 1)) vs), length vs)

-- The window that a paging chooses is the page.
window-page :
    (vs : List Value) (from per_page o l : ℕ)
    → l ≡ min per_page (length vs - from)
    → (l ≡ 0) ⊎ (o ≡ from)
    → 1 ≤ per_page
    → take l (drop o vs) ≡ take per_page (drop from vs)
window-page vs from per_page o l short (inl none_left) some_left =
    let empty : length (drop from vs) ≤ 0 = omega (arith, length-drop from vs) in
    ap (λ n. take n (drop o vs)) none_left
    ∙ sym (
        take-eq_of_le per_page (drop from vs) (omega arith)
        ∙ sym (take-eq_of_le 0 (drop from vs) empty))
window-page vs from per_page o l short (inr starts) some_left =
    rw starts (elim (Bool-cases (leb per_page (length vs - from))) [
      | inl full ↦ ap (λ n. take n (drop from vs)) (ground arith)
      | inr last ↦
          take-eq_of_le l (drop from vs) (ground (arith, length-drop from vs))
          ∙ sym (take-eq_of_le per_page (drop from vs) (ground (arith, length-drop from vs)))
    ])

are_printable-Holds :
    (tds : List ThingDescription) (es : List (String × Bytes))
    → Holds tds es
    → are_printable (of_items (map object tds)) ≡ true
unfolding is_printable
are_printable-Holds [] es h = refl
are_printable-Holds (td ∷ tds) [] h = absurd h
are_printable-Holds (td ∷ tds) ((key, bytes) ∷ es) (reads, h) =
    rw (IsJsonMap-have_printable td (unmarshal_map-IsJsonMap bytes td reads))
      (are_printable-Holds tds es h)

module _ (lib : Libraries) (L : LevelDb String) (sure : IsFaultless L) (paging : IsPaging lib)
    (schemas : List lib.Schema) (c : Controller L) (tds : List ThingDescription)
    (h : Holds tds (entries L c.storage)) where
  -- The text of all Thing Descriptions, in which a search looks.
  abbrev pub all_text : Bytes
  all_text = print lib.rfc (array (of_items (map object tds))) []

  paginate-page :
      (vs : List Value) (page per_page : ℕ)
      → 1 ≤ page
      → 1 ≤ per_page
      → per_page ≤ max_per_page
      → paginate lib L schemas vs page per_page ≡ ok (page_of page per_page vs)
  paginate-page vs page per_page a b d =
      let (o, l, e, short, from) = paging.pages (length vs) page per_page max_per_page a b d in
      let within = paging.subset (length vs) page per_page max_per_page e in
      let fits : leb (o + l) (length vs) ≡ true = ground arith in
      let chosen = window-page vs (per_page * (page - 1)) per_page o l short from b in
      ground (arith, e, within, chosen)

  -- Over a store that does not fail and whose entries are texts of Thing Descriptions, one at
  -- least, and with a paging that meets its description, the deprecated search by JSONPath returns
  -- the page that is asked for of what the library finds in the text of the list of all Thing
  -- Descriptions, with the number of all that it finds, and leaves the controller as it was, if
  -- what it finds is an array. The page is 1 at least, and holds 1 to 100 elements; the loop of
  -- `listAll` has as many rounds as pages of 100 entries hold all entries.
  pub filter_json_path-page :
      (n page per_page : ℕ) (path : String) (found : Bytes) (vs : Items)
      → length tds ≤ suc n * max_per_page
      → 0 < length tds
      → 1 ≤ page
      → 1 ≤ per_page
      → per_page ≤ max_per_page
      → lib.json_path all_text path ≡ done found
      → unmarshal found ≡ some (array vs)
      → filter_json_path lib L schemas (suc n) path page per_page c
        ≡ (ok (page_of page per_page (items vs)), c)
  unfolding filter_json_path marshal is_printable
  filter_json_path-page n page per_page path found vs enough some_td a b d finds reads =
      let listed = list_all-contents lib L sure paging schemas c tds h n enough in
      let not_empty : eqb (length tds) 0 ≡ false = ground arith in
      rw
        (
          listed,
          not_empty,
          are_printable-Holds tds (entries L c.storage) h,
          finds,
          reads,
          paginate-page (items vs) page per_page a b d,
        )
        refl

  -- The same for XPath, whose results are the nodes of a document, as JSON values.
  pub filter_x_path-page :
      (n page per_page : ℕ) (path : String) (doc : Node) (nodes : List Node)
      → length tds ≤ suc n * max_per_page
      → 0 < length tds
      → 1 ≤ page
      → 1 ≤ per_page
      → per_page ≤ max_per_page
      → lib.parse_document all_text ≡ done doc
      → lib.query_all doc path ≡ done nodes
      → filter_x_path lib L schemas (suc n) path page per_page c ≡ (
        ok (page_of page per_page (map (object_from_node (basic_type_from_x_path_str lib)) nodes)),
        c,
      )
  unfolding filter_x_path marshal is_printable
  filter_x_path-page n page per_page path doc nodes enough some_td a b d parses finds =
      let listed = list_all-contents lib L sure paging schemas c tds h n enough in
      let not_empty : eqb (length tds) 0 ≡ false = ground arith in
      rw
        (
          listed,
          not_empty,
          are_printable-Holds tds (entries L c.storage) h,
          parses,
          finds,
          paginate-page (map (object_from_node (basic_type_from_x_path_str lib)) nodes) page
              per_page a b d,
        )
        refl
