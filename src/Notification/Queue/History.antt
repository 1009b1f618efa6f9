-- ===== src/Notification/Queue/History.antt =====
-- The queue as the history of its events: what `getAllAfter` replays of it, and that `addRotate` keeps
-- it one.
use thing_directory.Common.{
  ℕ, ◌+◌, ◌%◌, ◌<◌, ◌≡◌, refl, inl, inr, Bool, none, some, List, [], ◌∷◌, map, ltb, arith, keep_if,
  Bool-cases,
}
use thing_directory.Common.Order.{bytes_order, nat_order}
use thing_directory.Errors.{ok}
use thing_directory.Json.{Bytes}
use thing_directory.LevelDb.{LevelDb, IsFaultless, Range, in_range, within}
use thing_directory.Libraries.{Libraries}
use thing_directory.Notification.Numbers.{uint64_mod, uint64_to_byte, format_uint}
use thing_directory.Notification.Numbers.Laws.{less_bytes-uint64_to_byte, parse_uint-format_uint}
use thing_directory.Notification.Queue.{
  Event, LevelDbEventQueue, read_event, read_events, get_all_after,
}

-- An entry holds an event under its number.
abbrev pub Keeps : ℕ × Event → List ℕ × Bytes → Type 0
Keeps (n, e) (key, bytes) =
    (n < uint64_mod) × (key ≡ uint64_to_byte n) × (read_event bytes ≡ some e)

-- The entries are the texts of the events of a history, each under its number.
abbrev pub Refines : List (ℕ × Event) → List (List ℕ × Bytes) → Type 0
Refines [] [] = Unit
Refines [] (y ∷ m) = ⊥
Refines (x ∷ h) [] = ⊥
Refines (x ∷ h) (y ∷ m) = Keeps x y × Refines h m

-- The events after a number, in their order.
abbrev pub after : ℕ → List (ℕ × Event) → List Event
after m h = map (λ x. x.1) (keep_if (λ x. ltb m x.0) h)

read_events-Refines :
    (h : List (ℕ × Event)) (m : List (List ℕ × Bytes))
    → Refines h m
    → read_events m ≡ some (map (λ x. x.1) h)
unfolding read_events
read_events-Refines [] [] r = refl
read_events-Refines [] (y ∷ m) r = absurd r
read_events-Refines (x ∷ h) [] r = absurd r
read_events-Refines ((n, e) ∷ h) ((key, bytes) ∷ m) ((s, k, b), r) =
    ground (arith, b, read_events-Refines h m r)

-- From the number m + 1 on, as a range of keys.
abbrev pub from_next : ℕ → Range (List ℕ)
from_next m = record { start = some (uint64_to_byte ((m + 1) % uint64_mod)); limit = none }

in_range-from_next :
    (m n : ℕ)
    → m + 1 < uint64_mod
    → n < uint64_mod
    → in_range (from_next m) (uint64_to_byte n) ≡ ltb m n
in_range-from_next m n h k = ground (arith, less_bytes-uint64_to_byte n ((m + 1) % uint64_mod))

-- A test of the numbers and the same test of the keys keep the same events.
pub keep_if-Refines :
    (p : ℕ → Bool) (r : List ℕ → Bool)
    → ((n : ℕ) → n < uint64_mod → r (uint64_to_byte n) ≡ p n)
    → (h : List (ℕ × Event)) (es : List (List ℕ × Bytes)) → Refines h es
    → Refines (keep_if (λ x. p x.0) h) (keep_if (λ e. r e.0) es)
keep_if-Refines p r agree [] [] f = tt
keep_if-Refines p r agree [] (y ∷ es) f = absurd f
keep_if-Refines p r agree (x ∷ h) [] f = absurd f
keep_if-Refines p r agree ((n, e) ∷ h) ((key, bytes) ∷ es) ((s, c, b), f) =
    let rest = keep_if-Refines p r agree h es f in
    let same : r key ≡ p n = rw c (agree n s) in
    elim (Bool-cases (p n)) [
      | inl kept ↦ rw (same, kept) ((s, c, b), rest)
      | inr gone ↦ rw (same, gone) rest
    ]

within-Refines :
    (m : ℕ) (h : List (ℕ × Event)) (es : List (List ℕ × Bytes))
    → m + 1 < uint64_mod
    → Refines h es
    → Refines (keep_if (λ x. ltb m x.0) h) (within (from_next m) es)
within-Refines m h es k =
    keep_if-Refines (ltb m) (in_range (from_next m)) (λ n. in_range-from_next m n k) h es

module _ (lib : Libraries) (L : LevelDb (List ℕ)) (sure : IsFaultless L)
    (q : LevelDbEventQueue L) where
  -- Over a store that does not fail, and whose entries are the texts of a history of numbered
  -- events, `getAllAfter` of the hexadecimal text of a number below 2 ^ 64 - 1 returns just the
  -- events of the history with greater numbers, in their order.
  pub get_all_after-history :
      (h : List (ℕ × Event)) (m : ℕ)
      → Refines h (L.contents q.db)
      → m + 1 < uint64_mod
      → get_all_after lib L (format_uint m) q ≡ ok (after m h)
  unfolding get_all_after
  get_all_after-history h m r k =
      rw
        (
          parse_uint-format_uint m (omega arith),
          L.scan_law q.db (from_next m) (sure.scan q.db (from_next m)),
          sure.scan q.db (from_next m),
          read_events-Refines (keep_if (λ x. ltb m x.0) h) (within (from_next m) (L.contents q.db))
              (within-Refines m h (L.contents q.db) k r),
        )
        refl
