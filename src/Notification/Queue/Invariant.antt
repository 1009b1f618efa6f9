-- ===== src/Notification/Queue/Invariant.antt =====
-- The invariant of the queue: each entry holds an event whose id is its number in hexadecimal, and no
-- number is above the latest one.
use thing_directory.Common.{
  ℕ, ◌+◌, ◌<◌, ◌≤◌, ◌≡◌, refl, inl, inr, some, List, [], ◌∷◌, ltb, arith, All, if◌then◌else◌,
  Option-cases,
}
use thing_directory.Common.Order.{bytes_order, text_order, nat_order}
use thing_directory.Common.SortedMap
use thing_directory.Common.SortedMap.{All-insert, All-erase, IsSorted, Above}
use thing_directory.Errors.{ok, done, io, io-done, Result-cases}
use thing_directory.Time.{Rfc3339}
use thing_directory.Json.{Bytes}
use thing_directory.Json.Print.{marshal, print}
use thing_directory.Json.RoundTrip.{IsMap, plain, plain_fields}
use thing_directory.Json.Maps.{unmarshal_map-print}
use thing_directory.LevelDb.{LevelDb, BatchOp, apply}
use thing_directory.LevelDb.Batch.{deletions}
use thing_directory.Libraries.{Libraries}
use thing_directory.Notification.Numbers.{uint64_mod, uint64_to_byte, format_uint, parse_uint}
use thing_directory.Notification.Numbers.Laws.{parse_uint-format_uint}
use thing_directory.Notification.Queue.{
  Event, event_value, event_fields, LevelDbEventQueue, read_event, event_of, outdated, cleanup,
  add_rotate, get_new_id,
}
use thing_directory.Notification.Queue.History.{Keeps}

-- The event as it is read back.
abbrev pub plain_event : Rfc3339 → Event → Event
plain_event rfc e = record e { content = plain_fields rfc e.content }

-- An event is read back from its text, up to the struct in its content.
pub read_event-print :
    (rfc : Rfc3339) (e : Event)
    → IsMap e.content
    → read_event (print rfc (event_value e) []) ≡ some (plain_event rfc e)
unfolding read_event event_of plain SortedMap.lookup
read_event-print rfc e m =
    rw
      (
        read_event,
        unmarshal_map-print rfc (event_fields e)
            ((refl, (refl, tt)), m, ((refl, tt), tt, (tt, tt, tt))),
      )
      refl

-- An event with a number that has been drawn.
abbrev pub IsNumbered : ℕ → Event → Type 0
IsNumbered latest e = (n : ℕ) × (n ≤ latest) × (e.id ≡ format_uint n)

abbrev pub Kept : ℕ → List ℕ × Bytes → Type 0
Kept latest y = (n : ℕ) × (e : Event) × (n ≤ latest) × (e.id ≡ format_uint n) × Keeps (n, e) y

module _ (L : LevelDb (List ℕ)) where
  pub record IsQueue (q : LevelDbEventQueue L) : Type 0 where
    pub bounded : q.latest_id < uint64_mod
    pub each : All (Kept q.latest_id) (L.contents q.db)

  -- The same below a number that may be greater than the latest one.
  pub record IsBounded (top : ℕ) (q : LevelDbEventQueue L) : Type 0 where
    pub latest : q.latest_id ≤ top
    pub bounded : top < uint64_mod
    pub each : All (Kept top) (L.contents q.db)

  pub IsQueue-IsBounded : (q : LevelDbEventQueue L) → IsQueue q → IsBounded q.latest_id q
  IsQueue-IsBounded q h = record { latest = omega arith; bounded = h.bounded; each = h.each }

-- Drawing a number and storing an event keep the invariant.
module _ (lib : Libraries) (L : LevelDb (List ℕ)) where
  All-apply-deletions :
      (P : List ℕ × Bytes → Type 0) (es m : List (List ℕ × Bytes))
      → All P m
      → All P (apply (deletions es) m)
  All-apply-deletions P [] m h = h
  All-apply-deletions P (e ∷ es) m h =
      All-apply-deletions P es (SortedMap.erase e.0 m) (All-erase P e.0 m h)

  pub All-weaken : (a b : ℕ) (m : List (List ℕ × Bytes)) → a ≤ b → All (Kept a) m → All (Kept b) m
  All-weaken a b [] l h = tt
  All-weaken a b (y ∷ m) l ((n, e, k, i, rest), h) =
      ((n, e, omega arith, i, rest), All-weaken a b m l h)

  pub get_new_id-IsQueue :
      (q : LevelDbEventQueue L)
      → IsQueue L q
      → q.latest_id + 1 < uint64_mod
      → IsQueue L (get_new_id lib L q).1
  unfolding get_new_id
  get_new_id-IsQueue q h below = record {
    bounded = omega arith;
    each = All-weaken q.latest_id _ (L.contents q.db) (omega arith) h.each;
  }

  pub reads_back :
      (e : Event) (bytes : Bytes)
      → IsMap e.content
      → marshal lib.rfc (event_value e) ≡ some bytes
      → read_event bytes ≡ some (plain_event lib.rfc e)
  unfolding marshal
  reads_back e bytes m printed = ground (arith, read_event-print lib.rfc e m)

  cleanup-cases :
      (q : LevelDbEventQueue L) (ops : List (BatchOp (List ℕ)))
      → cleanup lib L q ≡ ok ops
      → (es : List (List ℕ × Bytes)) × (ops ≡ deletions es)
  unfolding cleanup
  cleanup-cases q ops h = (
    (if ltb q.capacity q.latest_id then (L.scan q.db (outdated lib L q)).0 else []),
    ground arith,
  )

  -- A call of `addRotate` that returns has written the event and deletions, in one batch.
  pub rotated :
      (q p : LevelDbEventQueue L) (e : Event) (n : ℕ)
      → parse_uint e.id ≡ some n
      → add_rotate lib L e q ≡ ok p
      → (bytes : Bytes) × (es : List (List ℕ × Bytes)) × (d : L.Db) × (marshal lib.rfc
            (event_value e)
          ≡ some bytes)
        × (L.write q.db (BatchOp.put (uint64_to_byte n) bytes ∷ deletions es) ≡ done d)
        × (p ≡ record q { db = d })
  unfolding add_rotate
  rotated q p e n number r = elim (Option-cases (marshal lib.rfc (event_value e))) [
    | inl fails ↦ absurd (ground arith)
    | inr (bytes, printed) ↦ elim (Result-cases (cleanup lib L q)) [
      | inr fails ↦ absurd (ground arith)
      | inl (ops, c) ↦
          let (es, deletes) = cleanup-cases q ops c in
          elim (Result-cases (io (L.write q.db (BatchOp.put (uint64_to_byte n) bytes ∷ ops)))) [
            | inr fails ↦ absurd (ground arith)
            | inl (d, w) ↦ (
              bytes,
              es,
              d,
              printed,
              rw (← deletes)
                  (io-done (L.write q.db (BatchOp.put (uint64_to_byte n) bytes ∷ ops)) d w),
              ground arith,
            )
          ]
    ]
  ]

  pub add_rotate-IsQueue :
      (q p : LevelDbEventQueue L) (e : Event)
      → IsQueue L q
      → IsMap e.content
      → IsNumbered q.latest_id e
      → add_rotate lib L e q ≡ ok p
      → IsQueue L p
  add_rotate-IsQueue q p e h m (n, k, named) r =
      let number : parse_uint e.id ≡ some n =
        rw named (parse_uint-format_uint n (omega (arith, h.bounded))) in
      let (bytes, es, d, printed, w, same) = rotated q p e n number r in
      let kept : Kept q.latest_id (uint64_to_byte n, bytes) = (
        n,
        plain_event lib.rfc e,
        k,
        named,
        (omega (arith, h.bounded), refl, reads_back e bytes m printed),
      ) in
      rw same (record {
        bounded = h.bounded;
        each = rw (L.write_law q.db d (BatchOp.put (uint64_to_byte n) bytes ∷ deletions es) w) (
            All-apply-deletions (Kept q.latest_id) es _ (
              All-insert (Kept q.latest_id) (uint64_to_byte n) bytes (L.contents q.db) kept
                h.each));
      })

  pub add_rotate-IsBounded :
      (top : ℕ) (q p : LevelDbEventQueue L) (e : Event)
      → IsBounded L top q
      → IsMap e.content
      → IsNumbered top e
      → add_rotate lib L e q ≡ ok p
      → IsBounded L top p
  add_rotate-IsBounded top q p e h m (n, k, named) r =
      let number : parse_uint e.id ≡ some n =
        rw named (parse_uint-format_uint n (omega (arith, h.bounded))) in
      let (bytes, es, d, printed, w, same) = rotated q p e n number r in
      let kept : Kept top (uint64_to_byte n, bytes) = (
        n,
        plain_event lib.rfc e,
        k,
        named,
        (omega (arith, h.bounded), refl, reads_back e bytes m printed),
      ) in
      rw same (record {
        latest = h.latest;
        bounded = h.bounded;
        each = rw (L.write_law q.db d (BatchOp.put (uint64_to_byte n) bytes ∷ deletions es) w) (
            All-apply-deletions (Kept top) es _
              (All-insert (Kept top) (uint64_to_byte n) bytes (L.contents q.db) kept h.each));
      })
