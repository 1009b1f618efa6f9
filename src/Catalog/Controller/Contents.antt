-- ===== src/Catalog/Controller/Contents.antt =====
-- What `listAll` returns: every Thing Description that is stored, once and in the order of the ids.
use thing_directory.Common.{
  ℕ, zero, suc, ◌+◌, ◌-◌, ◌*◌, ◌≤◌, ◌≡◌, refl, sym, ap, ◌∙◌, ◌⊎◌, inl, inr, true, String, List, [],
  ◌++◌, arith, length, leb, Bool-cases, min, take, drop, take-append-take-drop, take-eq_of_le,
}
use mathlib.Core.List.{append-nil}
use thing_directory.Common.Order.{text_order}
use thing_directory.Errors.{ok}
use thing_directory.Json.{ThingDescription}
use thing_directory.LevelDb.{LevelDb, IsFaultless}
use thing_directory.Libraries.{Libraries, IsPaging}
use thing_directory.Catalog.Storage
use thing_directory.Catalog.Storage.{max_per_page}
use thing_directory.Catalog.Storage.Crud.{entries}
use thing_directory.Catalog.Storage.Pages.{Holds, list-page}
use thing_directory.Catalog.Controller.{Controller, list_pages, list_all}

-- A list and the pages of it that have been read.
module _ {ℓ} {A : Type ℓ} (xs : List A) where
  take-all : (m n : ℕ) → length xs ≤ m → length xs ≤ n → take m xs ≡ take n xs
  take-all m n h k = take-eq_of_le m xs h ∙ sym (take-eq_of_le n xs k)

  -- The first p pages and the one behind them, which the paging has chosen, are the first p + 1 pages.
  take-page :
      (p o l : ℕ)
      → l ≡ min max_per_page (length xs - max_per_page * p)
      → (l ≡ 0) ⊎ (o ≡ max_per_page * p)
      → take (max_per_page * p) xs ++ take l (drop o xs) ≡ take (max_per_page * (p + 1)) xs
  take-page p o l short (inl none_left) =
      rw (none_left, append-nil (take (max_per_page * p) xs))
        (take-all (max_per_page * p) (max_per_page * (p + 1)) (omega arith) (omega arith))
  take-page p o l short (inr from) = rw (from) (
      take-append-take-drop (max_per_page * p) l xs
      ∙ elim (Bool-cases (leb (max_per_page * (p + 1)) (length xs))) [
        | inl full ↦ ap (λ n. take n xs) (ground arith)
        | inr last ↦
            take-all (max_per_page * p + l) (max_per_page * (p + 1)) (ground arith) (ground arith)
      ])

module _ (lib : Libraries) (L : LevelDb String) (sure : IsFaultless L) (paging : IsPaging lib)
    (schemas : List lib.Schema) (c : Controller L) (tds : List ThingDescription)
    (h : Holds tds (entries L c.storage)) where
  -- The page p + 1 of 100.
  page-contents :
      (p : ℕ)
      → (page : List ThingDescription) × (Storage.list lib L (p + 1) max_per_page c.storage
          ≡ (ok (page, length tds), c.storage))
        × (take (max_per_page * p) tds ++ page ≡ take (max_per_page * (p + 1)) tds)
  page-contents p =
      let back : p + 1 - 1 ≡ p = omega arith in
      let (o, l, e, short, from) =
        paging.pages (length tds) (p + 1) max_per_page max_per_page (omega arith) (omega arith)
          (omega arith) in
      (
        take l (drop o tds),
        list-page lib L sure c.storage tds h (p + 1) max_per_page o l e
            (paging.subset (length tds) (p + 1) max_per_page max_per_page e),
        take-page tds p o l
            (short ∙ ap (λ q. min max_per_page (length tds - max_per_page * q)) back)
            (elim from [ inl none_left ↦ inl none_left | inr starts ↦ inr (omega arith) ]),
      )

  list_pages-contents :
      (n p : ℕ) (items : List ThingDescription)
      → items ≡ take (max_per_page * p) tds
      → length tds ≤ (p + suc n) * max_per_page
      → list_pages lib L schemas (suc n) (p + 1) items c ≡ (ok (tds, length tds), c)
  unfolding list_pages
  list_pages-contents zero p items so_far enough =
      let (page, e, grows) = page-contents p in
      let last : leb (length tds) ((p + 1) * max_per_page) ≡ true = ground arith in
      let all : items ++ page ≡ tds =
        rw so_far (grows ∙ take-eq_of_le (max_per_page * (p + 1)) tds (omega arith)) in
      rw (e, last, all) refl
  list_pages-contents (suc n) p items so_far enough =
      let (page, e, grows) = page-contents p in
      let longer : items ++ page ≡ take (max_per_page * (p + 1)) tds = rw so_far grows in
      let more = list_pages-contents n (p + 1) (items ++ page) longer (omega arith) in
      elim (Bool-cases (leb (length tds) ((p + 1) * max_per_page))) [
        | inl last ↦
            let all : items ++ page ≡ tds =
              longer ∙ take-eq_of_le (max_per_page * (p + 1)) tds (ground arith) in
            rw (e, last, all) refl
        | inr further ↦ rw (e, further) more
      ]

  -- Over a store that does not fail and whose entries are texts of Thing Descriptions, and with a
  -- paging that meets its description, the loop of `listAll` ends and returns every one of them,
  -- once and in the order of the entries, with their number, and leaves the controller as it was,
  -- if it has as many rounds as pages of 100 entries hold all entries, and at least one.
  pub list_all-contents :
      (n : ℕ)
      → length tds ≤ suc n * max_per_page
      → list_all lib L schemas (suc n) c ≡ (ok (tds, length tds), c)
  unfolding list_all
  list_all-contents n enough = list_pages-contents n 0 [] refl (omega arith)
