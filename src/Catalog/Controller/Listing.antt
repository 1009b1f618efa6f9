-- ===== src/Catalog/Controller/Listing.antt =====
-- The loop of `listAll` ends: how many rounds it takes at most.
use thing_directory.Common.{
  ℕ, zero, suc, ◌+◌, ◌*◌, ◌≤◌, ◌≡◌, refl, inl, inr, true, String, List, [], ◌++◌, arith, All,
  length, leb, Bool-cases,
}
use thing_directory.Common.Order.{text_order}
use thing_directory.Errors.{ok}
use thing_directory.Json.{ThingDescription}
use thing_directory.LevelDb.{LevelDb, IsFaultless}
use thing_directory.Libraries.{Libraries, IsPaging}
use thing_directory.Catalog.Storage
use thing_directory.Catalog.Storage.{LevelDbStorage, max_per_page}
use thing_directory.Catalog.Storage.Crud.{entries}
use thing_directory.Catalog.Storage.Reads.{Reads, list-returns}
use thing_directory.Catalog.Controller.{Controller, list_pages, list_all}

module _ (lib : Libraries) (L : LevelDb String) (sure : IsFaultless L) (paging : IsPaging lib)
    (schemas : List lib.Schema) (c : Controller L) (h : All Reads (entries L c.storage)) where
  abbrev count : ℕ
  count = length (entries L c.storage)

  page-returns :
      (p : ℕ)
      → 1 ≤ p
      → (tds : List ThingDescription) × (Storage.list lib L p max_per_page c.storage
          ≡ (ok (tds, count), c.storage))
  page-returns p first =
      let (o, l, e, _, _) =
        paging.pages count p max_per_page max_per_page first (omega arith) (omega arith) in
      list-returns lib L c.storage p max_per_page (o, l) sure h e

  list_pages-returns :
      (n p : ℕ) (items : List ThingDescription)
      → 1 ≤ p
      → count ≤ (p + n) * max_per_page
      → (all : List ThingDescription) × (list_pages lib L schemas (suc n) p items c
          ≡ (ok (all, count), c))
  unfolding list_pages
  list_pages-returns zero p items first enough =
      let (tds, e) = page-returns p first in
      let last : leb count (p * max_per_page) ≡ true = ground arith in
      (items ++ tds, rw (e, last) refl)
  list_pages-returns (suc n) p items first enough =
      let (tds, e) = page-returns p first in
      let (all, more) = list_pages-returns n (p + 1) (items ++ tds) (omega arith) (omega arith) in
      elim (Bool-cases (leb count (p * max_per_page))) [
        | inl last ↦ (items ++ tds, rw (e, last) refl)
        | inr further ↦ (all, rw (e, further) more)
      ]

  -- Over a store that does not fail and whose entries are JSON objects, and with a paging that
  -- meets its description, the loop of `listAll` returns a list with the number of entries, and
  -- leaves the controller as it was, within as many rounds as pages of 100 entries hold all
  -- entries, and at least one.
  pub list_all-returns :
      (n : ℕ)
      → count ≤ suc n * max_per_page
      → (all : List ThingDescription) × (list_all lib L schemas (suc n) c ≡ (ok (all, count), c))
  unfolding list_all
  list_all-returns n enough = list_pages-returns n 1 [] (omega arith) (omega arith)
