-- ===== src/Catalog/Http/Safe.antt =====
-- The handlers that answer a GET request write nothing: the entries and the goroutines stay as they were.
use thing_directory.Common.{
  leb, ◌*◌, if◌then◌else◌, ℕ, zero, suc, ◌+◌, ◌≡◌, refl, arith, String, List, [], ◌++◌,
}
use thing_directory.Common.Order.{text_order}
use thing_directory.Errors.{Result, ok, err, panicked}
use thing_directory.Exec.{pure, continue}
use thing_directory.Json.{ThingDescription}
use thing_directory.LevelDb.{LevelDb}
use thing_directory.Libraries.{Libraries}
use thing_directory.Catalog.Storage
use thing_directory.Catalog.Storage.{max_per_page, LevelDbStorage}
use thing_directory.Catalog.Controller
use thing_directory.Catalog.Controller.{Controller, list_pages, list_all}
use thing_directory.Catalog.Filter.{
  filter_json_path, filter_x_path, filter_json_path_bytes, filter_x_path_bytes,
}
use thing_directory.Catalog.Http.{Request, get_one}
use thing_directory.Catalog.Http.Queries.{get_many, get_page, search_json_path, search_x_path}

module _ (lib : Libraries) (L : LevelDb String) where
  total-db : (s : LevelDbStorage L) → (Storage.total lib L s).1.db ≡ s.db
  unfolding Storage.total
  total-db s = ground arith

  list-db :
      (page per_page : ℕ) (s : LevelDbStorage L) → (Storage.list lib L page per_page s).1.db ≡ s.db
  unfolding Storage.list
  list-db page per_page s = ground (arith, total-db s)

  list_all_bytes-db : (s : LevelDbStorage L) → (Storage.list_all_bytes lib L s).1.db ≡ s.db
  unfolding Storage.list_all_bytes
  list_all_bytes-db s = ground arith

  get-db : (id : String) (s : LevelDbStorage L) → (Storage.get lib L id s).1.db ≡ s.db
  unfolding Storage.get
  get-db id s = ground arith

  -- The same entries, and the same goroutines.
  abbrev pub SameStore : Controller L → Controller L → Type 0
  SameStore c d = (d.storage.db ≡ c.storage.db) × (d.spawned ≡ c.spawned)

  module _ (schemas : List lib.Schema) where
    -- What is behind a page keeps the store, whatever the page was.
    next_page-SameStore :
        (n p : ℕ) (items : List ThingDescription) (c d : Controller L)
        (r : Result (List ThingDescription × ℕ))
        → SameStore c d
        → ((tds : List ThingDescription) → SameStore d (list_pages lib L schemas n (p + 1) tds d).1)
        → SameStore c
            (continue r
              (λ page.
                if leb page.1 (p * max_per_page)
                then pure (items ++ page.0, page.1)
                else list_pages lib L schemas n (p + 1) (items ++ page.0))
              d).1
    next_page-SameStore n p items c d (err e) h k = h
    next_page-SameStore n p items c d (panicked m) h k = h
    next_page-SameStore n p items c d (ok page) h k = ground (arith, k (items ++ page.0))

    list_pages-SameStore :
        (fuel p : ℕ) (items : List ThingDescription) (c : Controller L)
        → SameStore c (list_pages lib L schemas fuel p items c).1
    unfolding list_pages
    list_pages-SameStore zero p items c = (refl, refl)
    list_pages-SameStore (suc fuel) p items c =
        let d = record c { storage = (Storage.list lib L p max_per_page c.storage).1 } in
        next_page-SameStore fuel p items c d (Storage.list lib L p max_per_page c.storage).0
          (list-db p max_per_page c.storage, refl) (λ tds. list_pages-SameStore fuel (p + 1) tds d)

    filter_json_path_bytes-SameStore :
        (q : String) (c : Controller L) → SameStore c (filter_json_path_bytes lib L schemas q c).1
    unfolding filter_json_path_bytes Controller.list_all_bytes
    filter_json_path_bytes-SameStore q c = ground (arith, list_all_bytes-db c.storage)

    filter_x_path_bytes-SameStore :
        (q : String) (c : Controller L) → SameStore c (filter_x_path_bytes lib L schemas q c).1
    unfolding filter_x_path_bytes Controller.list_all_bytes
    filter_x_path_bytes-SameStore q c = ground (arith, list_all_bytes-db c.storage)

    filter_json_path-SameStore :
        (fuel : ℕ) (q : String) (page per_page : ℕ) (c : Controller L)
        → SameStore c (filter_json_path lib L schemas fuel q page per_page c).1
    unfolding filter_json_path list_all
    filter_json_path-SameStore fuel q page per_page c =
        ground (arith, list_pages-SameStore fuel 1 [] c)

    filter_x_path-SameStore :
        (fuel : ℕ) (q : String) (page per_page : ℕ) (c : Controller L)
        → SameStore c (filter_x_path lib L schemas fuel q page per_page c).1
    unfolding filter_x_path list_all
    filter_x_path-SameStore fuel q page per_page c =
        ground (arith, list_pages-SameStore fuel 1 [] c)

    pub get_one-SameStore :
        (req : Request) (c : Controller L) → SameStore c (get_one lib L schemas req c).1
    unfolding get_one Controller.get_td
    get_one-SameStore req c = ground (arith, get-db req.id c.storage)

    pub search_json_path-SameStore :
        (req : Request) (c : Controller L) → SameStore c (search_json_path lib L schemas req c).1
    unfolding search_json_path
    search_json_path-SameStore req c =
        ground (arith, filter_json_path_bytes-SameStore (req.form "query") c)

    pub search_x_path-SameStore :
        (req : Request) (c : Controller L) → SameStore c (search_x_path lib L schemas req c).1
    unfolding search_x_path
    search_x_path-SameStore req c =
        ground (arith, filter_x_path_bytes-SameStore (req.form "query") c)

    get_page-SameStore :
        (fuel : ℕ) (req : Request) (page per_page : ℕ) (c : Controller L)
        → SameStore c (get_page lib L schemas fuel req page per_page c).1
    unfolding get_page Controller.list
    get_page-SameStore fuel req page per_page c = ground (
      arith,
      filter_json_path-SameStore fuel (req.form "jsonpath") page per_page c,
      filter_x_path-SameStore fuel (req.form "xpath") page per_page c,
      list-db page per_page c.storage,
    )

    pub get_many-SameStore :
        (fuel : ℕ) (req : Request) (c : Controller L)
        → SameStore c (get_many lib L schemas fuel req c).1
    unfolding get_many
    get_many-SameStore fuel req c =
        grind (arith, λ (page per_page : ℕ). get_page-SameStore fuel req page per_page c)
