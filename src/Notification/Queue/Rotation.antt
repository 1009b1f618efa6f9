-- ===== src/Notification/Queue/Rotation.antt =====
-- What `addRotate` leaves in the queue, and what `getAllAfter` reads from it.
use thing_directory.Common.{
  ℕ, ◌+◌, ◌-◌, ◌%◌, ◌<◌, ◌≤◌, ◌≡◌, refl, sym, ap, ◌∙◌, inl, inr, Bool, ◌&&◌, Option, none, some,
  List, [], ◌∷◌, ltb, leb, eqb, eqb_iff, arith, is_some, if◌then◌else◌, Bool-cases,
}
use thing_directory.Common.Order.{bytes_order, less_bytes}
use thing_directory.Common.SortedMap
use thing_directory.Common.SortedMap.{lookup-insert}
use thing_directory.Errors.{ok}
use thing_directory.Json.{Bytes}
use thing_directory.Json.Print.{marshal}
use thing_directory.LevelDb.{LevelDb, IsFaultless, BatchOp, apply}
use thing_directory.LevelDb.Batch.{lookup-within, lookup-deletions, deletions}
use thing_directory.Libraries.{Libraries}
use thing_directory.Notification.Numbers.{uint64_mod, uint64_to_byte, byte_to_uint64, format_uint}
use thing_directory.Notification.Numbers.Laws.{
  byte_to_uint64-uint64_to_byte, less_bytes-uint64_to_byte, parse_uint-format_uint,
}
use thing_directory.Notification.Queue.{
  Event, event_value, LevelDbEventQueue, outdated, cleanup, add_rotate,
}

number_of :
    (i j : ℕ) → i < uint64_mod → j < uint64_mod → uint64_to_byte i ≡ uint64_to_byte j → i ≡ j
number_of i j h k e =
    sym (byte_to_uint64-uint64_to_byte i h)
    ∙ (ap byte_to_uint64 e ∙ byte_to_uint64-uint64_to_byte j k)

-- Two numbers have the same key exactly if they are equal.
pub same_key :
    (i j : ℕ)
    → i < uint64_mod
    → j < uint64_mod
    → bytes_order.same (uint64_to_byte i) (uint64_to_byte j) ≡ eqb i j
same_key i j h k =
    let same = bytes_order.same_iff (uint64_to_byte i) (uint64_to_byte j) in
    elim (Bool-cases (bytes_order.same (uint64_to_byte i) (uint64_to_byte j))) [
      | inl e ↦ e ∙ sym ((eqb_iff i j).1 (number_of i j h k (same.0 e)))
      | inr e ↦ elim (Bool-cases (eqb i j)) [
        | inl equal ↦ same.1 (ap uint64_to_byte ((eqb_iff i j).0 equal)) ∙ sym equal
        | inr other ↦ e ∙ sym other
      ]
    ]

module _ (L : LevelDb (List ℕ)) where
  -- The entry under a number.
  abbrev pub entry : LevelDbEventQueue L → ℕ → Option Bytes
  entry q i = SortedMap.lookup (uint64_to_byte i) (L.contents q.db)

  -- The numbers that leave the queue.
  abbrev pub leaves : LevelDbEventQueue L → ℕ → Bool
  leaves q i = ltb q.capacity q.latest_id && leb i (q.latest_id - q.capacity)

module _ (lib : Libraries) (L : LevelDb (List ℕ)) (sure : IsFaultless L) (q : LevelDbEventQueue L)
    (latest : q.latest_id < uint64_mod) (room : 1 ≤ q.capacity) where
  outdated-entries :
      (i : ℕ)
      → i < uint64_mod
      → SortedMap.lookup (uint64_to_byte i) (L.scan q.db (outdated lib L q)).0
        ≡ (if leb i (q.latest_id - q.capacity) then entry L q i else none)
  outdated-entries i h =
      let first = (q.latest_id - q.capacity + 1) % uint64_mod in
      let order : less_bytes (uint64_to_byte i) (uint64_to_byte first) ≡ ltb i first =
        less_bytes-uint64_to_byte i first h (omega arith) in
      let before : ltb i first ≡ leb i (q.latest_id - q.capacity) = ground arith in
      ap (SortedMap.lookup (uint64_to_byte i))
        (L.scan_law q.db (outdated lib L q) (sure.scan q.db (outdated lib L q)))
      ∙ (lookup-within (outdated lib L q) (uint64_to_byte i) (L.contents q.db)
          ∙ rw (order, before) refl)

  cleanup-deletions :
      (ops : List (BatchOp (List ℕ))) × (cleanup lib L q ≡ ok ops)
      × ((i : ℕ)
          → i < uint64_mod
          → (m : List (List ℕ × Bytes))
          → SortedMap.lookup (uint64_to_byte i) (apply ops m) ≡ (
              if leaves L q i && is_some (entry L q i)
              then none
              else SortedMap.lookup (uint64_to_byte i) m))
  unfolding cleanup
  cleanup-deletions = elim (Bool-cases (ltb q.capacity q.latest_id)) [
    | inl full ↦ (
      deletions (L.scan q.db (outdated lib L q)).0,
      ground (arith, full, sure.scan q.db (outdated lib L q)),
      λ i h m.
          lookup-deletions (uint64_to_byte i) (L.scan q.db (outdated lib L q)).0 m
          ∙ rw (outdated-entries i h, full) (ground arith),
    )
    | inr spare ↦ ([], ground (arith, spare), λ i h m. rw spare refl)
  ]

  -- Over a store that does not fail, `addRotate` of an event that is JSON and whose id is the
  -- hexadecimal text of the number n returns a queue of the same latest number; if the latest
  -- number is above the capacity, each stored entry whose number is at most their difference is
  -- gone; otherwise the event stands under n and each other number has the entry that it had. The
  -- latest number and n are below 2 ^ 64, and the capacity is not 0.
  pub add_rotate-entry :
      (e : Event) (n : ℕ) (bytes : Bytes)
      → e.id ≡ format_uint n
      → n < uint64_mod
      → marshal lib.rfc (event_value e) ≡ some bytes
      → (p : LevelDbEventQueue L) × (add_rotate lib L e q ≡ ok p)
        × (p.latest_id ≡ q.latest_id)
        × ((i : ℕ)
            → i < uint64_mod
            → entry L p i ≡ (
                if leaves L q i && is_some (entry L q i)
                then none
                else if eqb n i
                then some bytes
                else entry L q i))
  unfolding add_rotate
  add_rotate-entry e n bytes named h m =
      let (ops, c, gone) = cleanup-deletions in
      let (d, w) = sure.write q.db (BatchOp.put (uint64_to_byte n) bytes ∷ ops) in
      (
        record q { db = d },
        rw (m, named, parse_uint-format_uint n h, c, w) refl,
        refl,
        λ i k.
            ap (SortedMap.lookup (uint64_to_byte i))
              (L.write_law q.db d (BatchOp.put (uint64_to_byte n) bytes ∷ ops) w)
            ∙ (gone i k (SortedMap.insert (uint64_to_byte n) bytes (L.contents q.db))
                ∙ rw
                    (
                      lookup-insert (uint64_to_byte n) (uint64_to_byte i) bytes (L.contents q.db),
                      same_key n i h k,
                    )
                    refl),
      )
