-- ===== src/Catalog/Storage/Pages.antt =====
-- What `list` returns: the page that the paging has chosen of the Thing Descriptions that are stored.
use thing_directory.Common.{
  ℕ, zero, suc, ◌+◌, ◌-◌, ◌≤◌, ◌≡◌, refl, sym, ap, ◌∙◌, String, Option, none, some, List, [], ◌∷◌,
  ◌++◌, arith, length, length-append, set, replicate, take, drop,
}
use mathlib.Core.List.{append_assoc}
use thing_directory.Common.Order.{text_order}
use thing_directory.Errors.{ok, done}
use thing_directory.Json.{ThingDescription, end, Bytes}
use thing_directory.Json.Parse.{unmarshal_map}
use thing_directory.LevelDb.{LevelDb, IsFaultless}
use thing_directory.LevelDb.Faultless.{scan-error, scan-entries}
use thing_directory.Libraries.{Libraries}
use thing_directory.Catalog.Storage.{
  LevelDbStorage, Visit, broke, finished, corrupt, visit, conclude, list, max_per_page,
}
use thing_directory.Catalog.Storage.Crud.{entries}
use thing_directory.Catalog.Storage.Reads.{total-eq}

-- The entries are texts of the Thing Descriptions, in this order.
abbrev pub Holds : List ThingDescription → List (String × Bytes) → Type 0
Holds [] [] = Unit
Holds [] (e ∷ es) = ⊥
Holds (td ∷ tds) [] = ⊥
Holds (td ∷ tds) (e ∷ es) = (unmarshal_map e.1 ≡ some td) × Holds tds es

pub length-Holds :
    (tds : List ThingDescription) (es : List (String × Bytes))
    → Holds tds es
    → length es ≡ length tds
length-Holds [] [] h = refl
length-Holds [] (e ∷ es) h = absurd h
length-Holds (td ∷ tds) [] h = absurd h
length-Holds (td ∷ tds) (e ∷ es) (reads, h) = ap suc (length-Holds tds es h)

-- The page of a visit that ends.
abbrev pub page_of : Visit → Option (List ThingDescription)
page_of (broke tds) = some tds
page_of (finished tds) = some tds
page_of corrupt = none

set-append :
    (front back : List ThingDescription) (old td : ThingDescription)
    → set (front ++ old ∷ back) (length front) td ≡ front ++ td ∷ back
set-append [] back old td = refl
set-append (x ∷ front) back old td = ap (λ t. x ∷ t) (set-append front back old td)

-- On the page: the places behind `front` are filled one by one.
visit-fills :
    (offset limit i r : ℕ) (front tds devices : List ThingDescription) (es : List (String × Bytes))
    → Holds tds es
    → r ≤ length tds
    → limit ≡ length front + r
    → i ≡ offset + length front
    → devices ≡ front ++ replicate r end
    → page_of (visit offset limit i devices es) ≡ some (front ++ take r tds)
unfolding visit
visit-fills offset limit i zero front [] devices [] h l m n d = ap some d
visit-fills offset limit i (suc r) front [] devices [] h l m n d = absurd (omega arith)
visit-fills offset limit i r front [] devices (e ∷ es) h l m n d = absurd h
visit-fills offset limit i r front (td ∷ tds) devices [] h l m n d = absurd h
visit-fills offset limit i zero front (td ∷ tds) devices ((key, bytes) ∷ es) (reads, h) l m n d =
    ground (arith, reads, d)
visit-fills offset limit i (suc r) front (td ∷ tds) devices ((key, bytes) ∷ es) (reads, h) l m n d =
    let here : i - offset ≡ length front = omega arith in
    let filled : set devices (i - offset) td ≡ (front ++ td ∷ []) ++ replicate r end =
      rw (here, d) (set-append front (replicate r end) end td)
      ∙ sym (append_assoc front (td ∷ []) (replicate r end)) in
    let more =
      visit-fills offset limit (i + 1) r (front ++ td ∷ []) tds (set devices (i - offset) td) es h
        (omega arith) (omega (arith, length-append front (td ∷ [])))
        (omega (arith, length-append front (td ∷ []))) filled in
    ground (arith, reads, more, append_assoc front (td ∷ []) (take r tds))

-- Before the page: entries are passed over.
visit-skips :
    (k offset i limit : ℕ) (tds : List ThingDescription) (es : List (String × Bytes))
    → Holds tds es
    → k + limit ≤ length tds
    → offset ≡ i + k
    → page_of (visit offset limit i (replicate limit end) es) ≡ some (take limit (drop k tds))
unfolding visit
visit-skips zero offset i limit tds es h l m =
    visit-fills offset limit i limit [] tds (replicate limit end) es h (omega arith) (omega arith)
      (omega arith) refl
visit-skips (suc k) offset i limit [] es h l m = absurd (omega arith)
visit-skips (suc k) offset i limit (td ∷ tds) [] h l m = absurd h
visit-skips (suc k) offset i limit (td ∷ tds) ((key, bytes) ∷ es) (reads, h) l m =
    let more = visit-skips k offset (i + 1) limit tds es h (omega arith) (omega arith) in
    ground (arith, reads, more)

-- What follows a visit with a page.
concluded-page :
    (lib : Libraries) (L : LevelDb String) (s : LevelDbStorage L) (n : ℕ) (v : Visit)
    (tds : List ThingDescription)
    → page_of v ≡ some tds
    → conclude lib L none n v (record s { wg = s.wg + 1 }) ≡ (ok (tds, n), s)
concluded-page lib L s n (broke ds) tds h = ground (arith, h)
concluded-page lib L s n (finished ds) tds h = ground (arith, h)
concluded-page lib L s n corrupt tds h = absurd (cc)

module _ (lib : Libraries) (L : LevelDb String) (sure : IsFaultless L) (s : LevelDbStorage L)
    (tds : List ThingDescription) (h : Holds tds (entries L s)) where
  -- Over a store that does not fail and whose entries are texts of Thing Descriptions, and if the
  -- paging chooses a window that lies within the list, `list` returns just the Thing Descriptions
  -- in the window, in the order of the entries, with the number of all of them, and leaves the
  -- storage as it was.
  pub list-page :
      (page per_page offset limit : ℕ)
      → lib.paging (length tds) page per_page max_per_page ≡ done (offset, limit)
      → offset + limit ≤ length tds
      → list lib L page per_page s ≡ (ok (take limit (drop offset tds), length tds), s)
  unfolding list
  list-page page per_page offset limit p l =
      rw
        (
          total-eq lib L s sure,
          length-Holds tds (entries L s) h,
          p,
          scan-error L sure s.db,
          scan-entries L sure s.db,
        )
        (concluded-page lib L s (length tds) _ _
          (visit-skips offset offset 0 limit tds (entries L s) h l (omega arith)))
