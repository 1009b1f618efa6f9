-- ===== src/Notification/Queue/Appending.antt =====
-- `addRotate` of the event with the latest number, as an operation on the history of events: it adds the
-- event at the end, and drops those that the capacity has no room for.
use thing_directory.Common.{
  ℕ, ◌+◌, ◌-◌, ◌%◌, ◌<◌, ◌≤◌, ◌≡◌, refl, ◌∙◌, inl, inr, Bool, true, false, not, some, List, [], ◌∷◌,
  ◌++◌, ltb, arith, All, keep_if, if◌then◌else◌, Bool-cases,
}
use thing_directory.Common.Order.{bytes_order, less_bytes}
use thing_directory.Common.SortedMap
use thing_directory.Common.SortedMap.{IsSorted}
use thing_directory.Errors.{ok}
use thing_directory.Json.{Bytes}
use thing_directory.Json.Print.{marshal}
use thing_directory.Json.RoundTrip.{IsMap}
use thing_directory.LevelDb.{LevelDb, IsFaultless, BatchOp, apply, within, in_range}
use thing_directory.LevelDb.Batch.{deletions, deletions-within, insert-last}
use thing_directory.Libraries.{Libraries}
use thing_directory.Notification.Numbers.{uint64_mod, uint64_to_byte, format_uint}
use thing_directory.Notification.Numbers.Laws.{less_bytes-uint64_to_byte, parse_uint-format_uint}
use thing_directory.Notification.Queue.{
  Event, event_value, LevelDbEventQueue, outdated, cleanup, add_rotate,
}
use thing_directory.Notification.Queue.History.{Keeps, Refines, keep_if-Refines}
use thing_directory.Notification.Queue.Invariant.{plain_event, reads_back}

Refines-append :
    (h : List (ℕ × Event)) (m : List (List ℕ × Bytes)) (x : ℕ × Event) (y : List ℕ × Bytes)
    → Refines h m
    → Keeps x y
    → Refines (h ++ x ∷ []) (m ++ y ∷ [])
Refines-append [] [] x y r k = (k, tt)
Refines-append [] (z ∷ m) x y r k = absurd r
Refines-append (z ∷ h) [] x y r k = absurd r
Refines-append (z ∷ h) (w ∷ m) x y (k, r) l = (k, Refines-append h m x y r l)

keep_if-append :
    (p : List ℕ × Bytes → Bool) (m : List (List ℕ × Bytes)) (y : List ℕ × Bytes)
    → p y ≡ true
    → keep_if p (m ++ y ∷ []) ≡ keep_if p m ++ y ∷ []
keep_if-append p [] y h = ground arith
keep_if-append p (z ∷ m) y h = ground (arith, keep_if-append p m y h)

-- The numbers of the history are below n, and so are its keys.
keys_below :
    (n : ℕ) (h : List (ℕ × Event)) (m : List (List ℕ × Bytes))
    → n < uint64_mod
    → Refines h m
    → All (λ x. x.0 < n) h
    → All (λ e. less_bytes e.0 (uint64_to_byte n) ≡ true) m
keys_below n [] [] l r a = tt
keys_below n [] (y ∷ m) l r a = absurd r
keys_below n (x ∷ h) [] l r a = absurd r
keys_below n ((i, e) ∷ h) ((key, bytes) ∷ m) l ((s, k, b), r) (below, a) =
    (rw k (less_bytes-uint64_to_byte i n s l ∙ ground (arith, below)), keys_below n h m l r a)

module _ (lib : Libraries) (L : LevelDb (List ℕ)) (sure : IsFaultless L) (q : LevelDbEventQueue L)
    (latest : q.latest_id < uint64_mod) (room : 1 ≤ q.capacity) where
  -- The events of a history that there is room for next to the latest one.
  abbrev pub recent : List (ℕ × Event) → List (ℕ × Event)
  recent h =
      if ltb q.capacity q.latest_id then keep_if (λ x. ltb (q.latest_id - q.capacity) x.0) h else h

  outdated-number :
      (n : ℕ)
      → n < uint64_mod
      → not (in_range (outdated lib L q) (uint64_to_byte n)) ≡ ltb (q.latest_id - q.capacity) n
  outdated-number n l = ground (
    arith,
    less_bytes-uint64_to_byte n ((q.latest_id - q.capacity + 1) % uint64_mod) l (omega arith),
  )

  cleanup-within :
      ltb q.capacity q.latest_id ≡ true
      → cleanup lib L q ≡ ok (deletions (within (outdated lib L q) (L.contents q.db)))
  unfolding cleanup
  cleanup-within full =
      rw
        (
          full,
          sure.scan q.db (outdated lib L q),
          L.scan_law q.db (outdated lib L q) (sure.scan q.db (outdated lib L q)),
        )
        refl

  module _ (h : List (ℕ × Event)) (e : Event) (bytes : Bytes) (r : Refines h (L.contents q.db))
      (a : All (λ x. x.0 < q.latest_id) h)
      (k : Keeps (q.latest_id, e) (uint64_to_byte q.latest_id, bytes)) where
    abbrev key : List ℕ
    key = uint64_to_byte q.latest_id

    comes_last : SortedMap.insert key bytes (L.contents q.db) ≡ L.contents q.db ++ (key, bytes) ∷ []
    comes_last =
        insert-last key bytes (L.contents q.db)
          (keys_below q.latest_id h (L.contents q.db) latest r a)

    -- The entries behind the batch of `addRotate`.
    cleanup-recent :
        (ops : List (BatchOp (List ℕ))) × (cleanup lib L q ≡ ok ops)
        × Refines
            (recent h ++ (q.latest_id, e) ∷ [])
            (apply ops (SortedMap.insert key bytes (L.contents q.db)))
    unfolding cleanup
    cleanup-recent = elim (Bool-cases (ltb q.capacity q.latest_id)) [
      | inr spare ↦ (
        [],
        rw spare refl,
        rw (spare, comes_last)
            (Refines-append h (L.contents q.db) (q.latest_id, e) (key, bytes) r k),
      )
      | inl full ↦
          let keeps : not (in_range (outdated lib L q) key) ≡ true =
            outdated-number q.latest_id latest ∙ ground (arith, room, full) in
          let out : in_range (outdated lib L q) key ≡ false = ground (arith, keeps) in
          let rest =
            keep_if-Refines (ltb (q.latest_id - q.capacity))
              (λ i. not (in_range (outdated lib L q) i)) outdated-number h (L.contents q.db) r in
          (
            deletions (within (outdated lib L q) (L.contents q.db)),
            cleanup-within full,
            rw
                (
                  full,
                  deletions-within (outdated lib L q) key bytes (L.contents q.db)
                      (L.contents-IsSorted q.db) out,
                  comes_last,
                  keep_if-append (λ x. not (in_range (outdated lib L q) x.0)) (L.contents q.db)
                      (key, bytes) keeps,
                )
                (Refines-append _ _ (q.latest_id, e) (key, bytes) rest k),
          )
    ]

  -- Over a store that does not fail, whose entries are the texts of a history of numbered events,
  -- each below the latest number, `addRotate` of an event that is JSON and has the latest number as
  -- its id returns a queue of the same latest number, whose entries are the texts of the history
  -- with the event at its end, without the events whose numbers are at most the difference of the
  -- latest number and the capacity, if the latest number is above the capacity. The latest number
  -- is below 2 ^ 64, and the capacity is not 0.
  pub add_rotate-history :
      (h : List (ℕ × Event)) (e : Event) (bytes : Bytes)
      → Refines h (L.contents q.db)
      → All (λ x. x.0 < q.latest_id) h
      → IsMap e.content
      → marshal lib.rfc (event_value e) ≡ some bytes
      → e.id ≡ format_uint q.latest_id
      → (p : LevelDbEventQueue L) × (add_rotate lib L e q ≡ ok p)
        × (p.latest_id ≡ q.latest_id)
        × Refines (recent h ++ (q.latest_id, plain_event lib.rfc e) ∷ []) (L.contents p.db)
  unfolding add_rotate
  add_rotate-history h e bytes r a m printed named =
      let k : Keeps (q.latest_id, plain_event lib.rfc e) (uint64_to_byte q.latest_id, bytes) =
        (latest, refl, reads_back lib L e bytes m printed) in
      let (ops, cleans, after) = cleanup-recent h (plain_event lib.rfc e) bytes r a k in
      let (d, w) = sure.write q.db (BatchOp.put (uint64_to_byte q.latest_id) bytes ∷ ops) in
      (
        record q { db = d },
        rw (printed, named, parse_uint-format_uint q.latest_id latest, cleans, w) refl,
        refl,
        rw (L.write_law q.db d (BatchOp.put (uint64_to_byte q.latest_id) bytes ∷ ops) w) after,
      )
