-- ===== src/Catalog/Storage/Reads.antt =====
-- The reading methods of the storage: the iterators that they open and close, and what they count.
use thing_directory.Common.{
  ℕ, ◌+◌, ◌-◌, ◌≡◌, refl, false, String, Option, none, some, List, [], ◌∷◌, arith, All, length, set,
  replicate,
}
use thing_directory.Common.Order.{text_order}
use thing_directory.Errors.{ok, Io, done, fault}
use thing_directory.Json.{ThingDescription, end, Bytes}
use thing_directory.Json.Parse.{unmarshal_map}
use thing_directory.LevelDb.{LevelDb, IsFaultless, everything}
use thing_directory.LevelDb.Faultless.{scan-error, scan-entries}
use thing_directory.Libraries.{Libraries}
use thing_directory.Catalog.Storage.{
  LevelDbStorage, Visit, broke, finished, corrupt, visit, conclude, total, list, list_all_bytes,
  max_per_page, page_or_error, open_iterator, closes,
}
use thing_directory.Exec.{continue, gets, ◌>>=◌}
use thing_directory.Catalog.Storage.Crud.{entries}

-- The text of an entry is a JSON object.
abbrev pub Reads : String × Bytes → Type 0
Reads e = (td : ThingDescription) × (unmarshal_map e.1 ≡ some td)

visit-ends :
    (offset limit i : ℕ) (devices : List ThingDescription) (es : List (String × Bytes))
    → All Reads es
    → visit offset limit i devices es ≡ corrupt
    → ⊥
unfolding visit
visit-ends offset limit i devices [] h e = cc
visit-ends offset limit i devices ((key, bytes) ∷ es) ((td, reads), h) e =
    let within = visit-ends offset limit (i + 1) (set devices (i - offset) td) es h in
    let before = visit-ends offset limit (i + 1) devices es h in
    ground (arith, reads, within, before, e)

module _ (lib : Libraries) (L : LevelDb String) (s : LevelDbStorage L) where
  pub total-state : (total lib L s).1 ≡ s
  unfolding total
  total-state = ground arith

  pub list_all_bytes-state : (list_all_bytes lib L s).1 ≡ s
  unfolding list_all_bytes
  list_all_bytes-state = ground arith

  conclude-state :
      (e : Option String) (n : ℕ) (v : Visit)
      → (v ≡ corrupt → ⊥)
      → (conclude lib L e n v (record s { wg = s.wg + 1 })).1 ≡ s
  conclude-state e n (broke tds) fine = ground arith
  conclude-state none n (finished tds) fine = ground arith
  conclude-state (some m) n (finished tds) fine = ground arith
  conclude-state e n corrupt fine = absurd (fine refl)

  module _ (sure : IsFaultless L) where
    -- Over a store that does not fail, `total` returns the number of entries.
    pub total-length : (total lib L s).0 ≡ ok (length (entries L s))
    unfolding total
    total-length = rw (scan-error L sure s.db, scan-entries L sure s.db) refl

    pub total-eq : total lib L s ≡ (ok (length (entries L s)), s)
    total-eq = λ i. (total-length i, total-state i)

    -- Over a store that does not fail and whose entries are JSON objects, `list` of any page leaves
    -- the storage as it was, with no more iterators open than before.
    pub list-state :
        (page per_page : ℕ) → All Reads (entries L s) → (list lib L page per_page s).1 ≡ s
    unfolding list
    list-state page per_page h =
        rw total-eq (go (lib.paging (length (entries L s)) page per_page max_per_page))
      where
        go :
            (w : Io (ℕ × ℕ))
            → (continue
                (page_or_error lib L w)
                (λ window. open_iterator lib L >>= λ u.
                  gets (λ (r : LevelDbStorage L). L.scan r.db everything) >>= λ found.
                  conclude lib L found.1
                    (length (entries L s))
                    (visit window.0 window.1 0 (replicate window.1 end) found.0))
                s).1
              ≡ s
        go (done window) =
            rw (scan-error L sure s.db, scan-entries L sure s.db)
              (conclude-state none (length (entries L s)) _
                (visit-ends window.0 window.1 0 (replicate window.1 end) (entries L s) h))
        go (fault m) = refl

  -- Over a store that does not fail, if the loop of `list` meets an entry that is no JSON object on
  -- the page that it was asked for, an iterator stays open, so that `Close` does not return.
  pub list-open :
      (page per_page : ℕ) (window : ℕ × ℕ)
      → IsFaultless L
      → lib.paging (length (entries L s)) page per_page max_per_page ≡ done window
      → visit window.0 window.1 0 (replicate window.1 end) (entries L s) ≡ corrupt
      → closes lib L (list lib L page per_page s).1 ≡ false
  unfolding list closes
  list-open page per_page window sure p e =
      rw (total-eq sure, p, scan-error L sure s.db, scan-entries L sure s.db, e) (ground arith)

  -- A visit that ends is followed by the page and the total.
  concluded :
      (n : ℕ) (v : Visit)
      → (v ≡ corrupt → ⊥)
      → (tds : List ThingDescription) × (conclude lib L none n v (record s { wg = s.wg + 1 })
          ≡ (ok (tds, n), s))
  concluded n (broke tds) fine = (tds, ground arith)
  concluded n (finished tds) fine = (tds, ground arith)
  concluded n corrupt fine = absurd (fine refl)

  -- `list` returns a page for which the paging has a window.
  pub list-returns :
      (page per_page : ℕ) (window : ℕ × ℕ)
      → IsFaultless L
      → All Reads (entries L s)
      → lib.paging (length (entries L s)) page per_page max_per_page ≡ done window
      → (tds : List ThingDescription) × (list lib L page per_page s
          ≡ (ok (tds, length (entries L s)), s))
  unfolding list
  list-returns page per_page window sure h p =
      let (tds, e) =
        concluded (length (entries L s)) _
          (visit-ends window.0 window.1 0 (replicate window.1 end) (entries L s) h) in
      (tds, rw (total-eq sure, p, scan-error L sure s.db, scan-entries L sure s.db) e)
