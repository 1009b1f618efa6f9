-- ===== src/Catalog/Expiry/Sweep.antt =====
-- A round over a well-formed catalog removes the expired Thing Descriptions and no other, and does not
-- panic.
use thing_directory.Common.{
  ◌≡◌, ◌<◌, ltb, ltb→lt, true, refl, ap, ◌∙◌, inl, inr, Bool, false, String, Option, none, some,
  List, [], ◌∷◌, ◌==◌, eq_iff, arith, All, if◌then◌else◌, Bool-cases, any,
}
use thing_directory.Common.Order.{text_order}
use thing_directory.Common.SortedMap
use thing_directory.Common.SortedMap.{
  lookup-erase, All-lookup, Above, IsSorted, lookup-Above, same_comm, not_same_of_less,
}
use thing_directory.Time.{Time}
use thing_directory.Wot.{ThingRegistration, key_thing_id}
use thing_directory.Errors.{Result, ok}
use thing_directory.Json.{ThingDescription, get, as_text, Bytes}
use thing_directory.Json.Parse.{unmarshal_map}
use thing_directory.LevelDb.{LevelDb, IsFaultless}
use thing_directory.LevelDb.Faultless.{scan-entries}
use thing_directory.Libraries.{Libraries}
use thing_directory.Catalog.Storage
use thing_directory.Catalog.Storage.{LevelDbStorage, sent}
use thing_directory.Catalog.Storage.Crud.{entries, stored, stored-delete}
use thing_directory.Catalog.Registration.{thing_registration, thing_expires}
use thing_directory.Catalog.Registration.Expiration.{
  HasExpired, expires-HasExpired, HasExpired-expires,
}
use thing_directory.Catalog.Stored.{IsStored, IsCatalog}
use thing_directory.Catalog.Expiry.{is_over, expired_services, remove_all, clean_expired}

module _ (lib : Libraries) (t : Time) where
  -- Whether the text of an entry holds a registration that has expired at t.
  abbrev over : Result (Option ThingRegistration) → Bool
  over (ok tr) = is_over t (thing_expires tr)
  over _ = false

  abbrev over_td : Option ThingDescription → Bool
  over_td none = false
  over_td (some td) = over (thing_registration lib.rfc td)

  unfoldable pub is_expired : Bytes → Bool
  is_expired bytes = over_td (unmarshal_map bytes)

  abbrev pub expired_entry : Option Bytes → Bool
  expired_entry none = false
  expired_entry (some bytes) = is_expired bytes

  -- The ids of the expired entries.
  unfoldable pub expired_ids : List (String × Bytes) → List String
  expired_ids [] = []
  expired_ids ((key, bytes) ∷ m) =
      let rest = expired_ids m in if is_expired bytes then key ∷ rest else rest

  -- The Thing Descriptions that a round collects have these ids.
  HaveIds : List ThingDescription → List String → Type 0
  HaveIds [] [] = Unit
  HaveIds (td ∷ tds) (id ∷ ids) = (as_text (get key_thing_id td) ≡ some id) × HaveIds tds ids
  HaveIds _ _ = ⊥

  expired-stored :
      (bytes : Bytes) (td : ThingDescription) (tr : ThingRegistration)
      → unmarshal_map bytes ≡ some td
      → thing_registration lib.rfc td ≡ ok (some tr)
      → is_expired bytes ≡ is_over t (thing_expires (some tr))
  unfolding is_expired
  expired-stored bytes td tr reads registered = rw (reads, registered) refl

  collected :
      (m : List (String × Bytes))
      → All (λ e. IsStored lib.rfc e.0 e.1) m
      → (tds : List ThingDescription) × (expired_services lib.rfc t (sent m) ≡ ok tds)
        × HaveIds tds (expired_ids m)
  unfolding sent expired_services expired_ids HaveIds
  collected [] h = ([], refl, tt)
  collected ((key, bytes) ∷ m) (s, h) =
      let (tds, e, ids) = collected m h in
      let is_expired_eq = expired-stored bytes s.td s.registration s.reads s.registered in
      elim (Bool-cases (is_over t (thing_expires (some s.registration)))) [
        | inl expired ↦ (
          s.td ∷ tds,
          ground (arith, s.reads, s.registered, e, expired),
          rw (is_expired_eq, expired) (ap as_text s.identified, ids),
        )
        | inr kept ↦
            (tds, ground (arith, s.reads, s.registered, e, kept), rw (is_expired_eq, kept) ids)
      ]

  -- The test of the code, and what it is to test.
  expired-lem :
      (key : String) (bytes : Bytes)
      → IsStored lib.rfc key bytes
      → HasExpired lib.rfc t bytes
      → is_expired bytes ≡ true
  unfolding thing_expires
  expired-lem key bytes s x =
      let (e, ends, before) =
        expires-HasExpired lib.rfc t bytes s.td s.registration s.reads s.registered x in
      expired-stored bytes s.td s.registration s.reads s.registered
      ∙ (rw ends (ground (arith, before)))

  lives-lem :
      (key : String) (bytes : Bytes)
      → IsStored lib.rfc key bytes
      → (HasExpired lib.rfc t bytes → ⊥)
      → is_expired bytes ≡ false
  unfolding thing_expires
  lives-lem key bytes s lives =
      expired-stored bytes s.td s.registration s.reads s.registered
      ∙ go s.registration.expires (λ e ends before.
        lives (
          HasExpired-expires lib.rfc t bytes s.td s.registration e s.reads s.registered ends
            before))
    where
      go : (o : Option Time) → ((e : Time) → o ≡ some e → e < t → ⊥) → is_over t o ≡ false
      go none h = refl
      go (some e) h = elim (Bool-cases (ltb e t)) [
        | inl early ↦ absurd (h e refl (ltb→lt e t early))
        | inr not_over ↦ not_over
      ]

  kept :
      (j : String) (o : Option Bytes)
      → ((bytes : Bytes) → o ≡ some bytes → IsStored lib.rfc j bytes)
      → ((bytes : Bytes) → o ≡ some bytes → HasExpired lib.rfc t bytes → ⊥)
      → (if expired_entry o then none else o) ≡ o
  kept j none each lives = refl
  kept j (some bytes) each lives = rw (lives-lem j bytes (each bytes refl) (lives bytes refl)) refl

  abbrev is_in : String → List String → Bool
  is_in j ids = any (λ id. id == j) ids

  module _ (L : LevelDb String) (sure : IsFaultless L) (j : String) where
    remove_all-stored :
        (tds : List ThingDescription) (ids : List String) (s : LevelDbStorage L)
        → HaveIds tds ids
        → ((remove_all lib L tds s).0 ≡ ok tt)
          × (stored L (remove_all lib L tds s).1 j ≡ (if is_in j ids then none else stored L s j))
    unfolding remove_all HaveIds
    remove_all-stored [] [] s h = (refl, refl)
    remove_all-stored [] (id ∷ ids) s h = absurd h
    remove_all-stored (td ∷ tds) [] s h = absurd h
    remove_all-stored (td ∷ tds) (id ∷ ids) s (e, h) =
        let (fine, rest) = remove_all-stored tds ids (Storage.delete lib L id s).1 h in
        (
          rw (e, remove_all) fine,
          rw (e, remove_all) (ground (arith, rest, stored-delete lib L sure s id j)),
        )

    -- An id is collected exactly when its entry has expired.
    is_in-Above :
        (k : String) (m : List (String × Bytes)) → Above k m → is_in k (expired_ids m) ≡ false
    unfolding expired_ids
    is_in-Above k [] a = refl
    is_in-Above k ((i, bytes) ∷ m) (b, a) =
        ground (arith, is_in-Above k m a, not_same_of_less k i b, same_comm i k)

    lookup-expired_ids :
        (m : List (String × Bytes))
        → IsSorted m
        → (if is_in j (expired_ids m) then none else SortedMap.lookup j m)
          ≡ (if expired_entry (SortedMap.lookup j m) then none else SortedMap.lookup j m)
    unfolding expired_ids SortedMap.lookup
    lookup-expired_ids [] h = refl
    lookup-expired_ids ((i, bytes) ∷ m) (a, h) = elim (Bool-cases (i == j)) [
      | inl same ↦
          let here = (eq_iff i j).0 same in
          let other = is_in-Above i m a in ground (arith, same, here, other)
      | inr different ↦ ground (arith, different, lookup-expired_ids m h)
    ]

    stored-IsStored :
        (s : LevelDbStorage L)
        → IsCatalog lib.rfc L s
        → (bytes : Bytes) → stored L s j ≡ some bytes
        → IsStored lib.rfc j bytes
    stored-IsStored s h bytes here = All-lookup _ j (entries L s) bytes h.each here

    sweep-stored :
        (s : LevelDbStorage L)
        → IsCatalog lib.rfc L s
        → ((clean_expired lib L t s).0 ≡ ok tt)
          × (stored L (clean_expired lib L t s).1 j
              ≡ (if expired_entry (stored L s j) then none else stored L s j))
    unfolding clean_expired Storage.iterator
    sweep-stored s h =
        let (tds, e, ids) = collected (entries L s) h.each in
        let (fine, rest) = remove_all-stored tds (expired_ids (entries L s)) s ids in
        rw (scan-entries L sure s.db, e)
          (fine, rest ∙ lookup-expired_ids (entries L s) (L.contents-IsSorted s.db))

    -- Over a store that does not fail and a well-formed catalog, a round of the removal at the time
    -- t does not panic; under an id whose entry's registration has an `expires` before t there is
    -- nothing afterwards, and under each other id there is what was there.
    pub clean_expired-stored :
        (s : LevelDbStorage L)
        → IsCatalog lib.rfc L s
        → ((clean_expired lib L t s).0 ≡ ok tt)
          × ((bytes : Bytes)
              → stored L s j ≡ some bytes
              → HasExpired lib.rfc t bytes
              → stored L (clean_expired lib L t s).1 j ≡ none)
          × (((bytes : Bytes) → stored L s j ≡ some bytes → HasExpired lib.rfc t bytes → ⊥)
              → stored L (clean_expired lib L t s).1 j ≡ stored L s j)
    clean_expired-stored s h =
        let (fine, rest) = sweep-stored s h in
        (
          fine,
          λ bytes here x.
              rest ∙ rw (here, expired-lem j bytes (stored-IsStored s h bytes here) x) refl,
          λ lives. rest ∙ kept j (stored L s j) (stored-IsStored s h) lives,
        )
