-- ===== src/Notification/Queue/Restart.antt =====
-- `NewLevelDBEventQueue` over the entries of an earlier run: the numbers go on from the last one stored.
use thing_directory.Common.{
  ℕ, ◌≤◌, ◌≡◌, refl, sym, ◌∙◌, true, Option, none, some, List, [], ◌∷◌, ltb, arith, All,
}
use thing_directory.Common.Order.{bytes_order, less_bytes}
use thing_directory.Common.SortedMap.{IsSorted}
use thing_directory.Errors.{ok}
use thing_directory.Json.{Bytes}
use thing_directory.LevelDb.{LevelDb, IsFaultless}
use thing_directory.LevelDb.Faultless.{scan-error, scan-entries}
use thing_directory.Libraries.{Libraries}
use thing_directory.Notification.Numbers.{byte_to_uint64}
use thing_directory.Notification.Numbers.Laws.{
  less_bytes-uint64_to_byte, byte_to_uint64-uint64_to_byte,
}
use thing_directory.Notification.Queue.{
  LevelDbEventQueue, last_key, fetch_latest_id, new_level_db_event_queue,
}
use thing_directory.Notification.Queue.Invariant.{Kept, IsQueue}

number_or_zero : Option (List ℕ) → ℕ
number_or_zero none = 0
number_or_zero (some key) = byte_to_uint64 key

Kept-lt :
    (n : ℕ) (x y : List ℕ × Bytes) (a : ℕ)
    → less_bytes x.0 y.0 ≡ true
    → Kept a x
    → Kept n y
    → Kept n x
Kept-lt n (k, b) (l, c) a less (i, e, i_most, named, (i_less, i_key, reads))
      (j, f, j_most, _, (j_less, j_key, _)) =
    let order : ltb i j ≡ true =
      sym (less_bytes-uint64_to_byte i j i_less j_less) ∙ rw (← i_key, ← j_key) less in
    (i, e, ground (arith, order), named, (i_less, i_key, reads))

-- The last key has the greatest number.
last_key-Kept :
    (a : ℕ) (m : List (List ℕ × Bytes))
    → IsSorted m
    → All (Kept a) m
    → (n : ℕ) × (n ≤ a) × (number_or_zero (last_key m) ≡ n) × All (Kept n) m
unfolding last_key number_or_zero
last_key-Kept a [] s h = (0, omega arith, refl, tt)
last_key-Kept a (x ∷ []) s ((i, e, most, named, (less, key, reads)), h) = (
  i,
  most,
  rw key (byte_to_uint64-uint64_to_byte i less),
  ((i, e, omega arith, named, (less, key, reads)), tt),
)
last_key-Kept a (x ∷ y ∷ m) ((above, _), s) (now, h) =
    let (n, most, number, (next, rest)) = last_key-Kept a (y ∷ m) s h in
    (n, most, number, (Kept-lt n x y a above now next, (next, rest)))

module _ (lib : Libraries) (L : LevelDb (List ℕ)) (sure : IsFaultless L) where
  fetch_latest_id-last :
      (d : L.Db) → fetch_latest_id lib L d ≡ ok (number_or_zero (last_key (L.contents d)))
  unfolding fetch_latest_id number_or_zero
  fetch_latest_id-last d = rw (scan-entries L sure d, scan-error L sure d) refl

  -- Over a store that does not fail and the entries of a sound queue, `NewLevelDBEventQueue`
  -- returns a sound queue with the same entries, so that the number it goes on from is at least
  -- that of each entry, and it is at most the number that had been drawn.
  pub new_level_db_event_queue-IsQueue :
      (q : LevelDbEventQueue L) (capacity : ℕ)
      → IsQueue L q
      → (n : ℕ) × (n ≤ q.latest_id)
        × (new_level_db_event_queue lib L q.db capacity
            ≡ ok (record { db = q.db; latest_id = n; capacity = capacity }))
        × IsQueue L (record { db = q.db; latest_id = n; capacity = capacity })
  unfolding new_level_db_event_queue
  new_level_db_event_queue-IsQueue q capacity h =
      let (n, most, number, kept) =
        last_key-Kept q.latest_id (L.contents q.db) (L.contents-IsSorted q.db) h.each in
      (
        n,
        most,
        rw (fetch_latest_id-last q.db, number) refl,
        record { bounded = omega (arith, h.bounded); each = kept },
      )
