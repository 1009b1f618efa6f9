-- ===== src/Notification/Controller/Steps/Soundness.antt =====
-- The invariant of the goroutines around the controller: the queue is sound below the greatest number drawn, each event that is under
-- way has a number that was drawn, each active client has its own open channel, and no channel that is
-- still to come is closed.
use thing_directory.Common.{
  ℕ, ◌+◌, ◌<◌, ◌≤◌, ◌≡◌, ◌≢◌, refl, inl, inr, Bool, true, false, String, some, List, [], ◌∷◌, ◌++◌,
  eqb, eqb_iff, arith, All, Bool-cases, ◌==◌,
}
use mathlib.Core.List.{append-nil}
use thing_directory.Common.Order.{bytes_order, nat_order}
use thing_directory.Common.SortedMap
use thing_directory.Common.SortedMap.{
  IsSorted, All-insert, All-erase, insert-IsSorted, erase-IsSorted,
}
use thing_directory.Errors.{Result, ok, err, panicked}
use thing_directory.Json.RoundTrip.{IsMap}
use thing_directory.LevelDb.{LevelDb}
use thing_directory.Libraries.{Libraries}
use thing_directory.Notification.Queue.{Event, LevelDbEventQueue, get_all_after}
use thing_directory.Notification.Numbers.{uint64_mod}
use thing_directory.Notification.Queue.Invariant.{IsBounded, IsNumbered}
use thing_directory.Notification.Controller.{
  Subscriber, Controller, Delivery, handle, subscribing, unsubscribing, close_channel, replay,
}
use thing_directory.Notification.Controller.Delivery.{AreOpen, send_missed-received}
use thing_directory.Notification.Controller.Steps.{
  Pc, idle, increasing, drawing, numbered, notified, update, System,
}

abbrev pub IsPending : ℕ → Event → Type 0
IsPending latest e = IsMap e.content × IsNumbered latest e

abbrev pub IsPublishing : ℕ → Pc → Type 0
IsPublishing latest idle = Unit
IsPublishing latest (increasing k e) = IsMap e.content × (k + 1 < uint64_mod)
IsPublishing latest (drawing e) = IsMap e.content
IsPublishing latest (numbered e) = IsPending latest e
IsPublishing latest (notified e) = IsPending latest e

-- An active client is registered under its own channel, which has not been left.
abbrev pub IsActive : (ℕ → Bool) → ℕ × Subscriber → Type 0
IsActive connected a = (a.1.client ≡ a.0) × (connected a.0 ≡ true)

pub update-all :
    {A : Type 0} (P : A → Type 0) (f : ℕ → A) (i : ℕ) (a : A)
    → P a
    → ((j : ℕ) → P (f j))
    → (j : ℕ) → P (update f i a j)
update-all P f i a p h j = elim (Bool-cases (eqb i j)) [
  | inl here ↦ rw here p
  | inr there ↦ rw there (h j)
]

pub join-IsActive :
    (connected : ℕ → Bool) (client : ℕ) (active : List (ℕ × Subscriber))
    → All (IsActive connected) active
    → All (IsActive (update connected client true)) active
join-IsActive connected client [] h = tt
join-IsActive connected client (a ∷ active) ((named, live), h) =
    ((named, ground arith), join-IsActive connected client active h)

pub leave-IsActive :
    (connected : ℕ → Bool) (client : ℕ) (active : List (ℕ × Subscriber))
    → All (IsActive connected) active
    → All (IsActive (update connected client false)) (SortedMap.erase client active)
unfolding SortedMap.erase
leave-IsActive connected client [] h = tt
leave-IsActive connected client (a ∷ active) ((named, live), h) =
    let rest = leave-IsActive connected client active h in
    elim (Bool-cases (eqb a.0 client)) [
      | inl same ↦ rw same rest
      | inr other ↦ rw other ((named, ground (arith, eqb_iff a.0 client)), rest)
    ]

pub some-injective : (e f : Event) → some e ≡ some f → e ≡ f
some-injective e f h = cc

pub IsPending-weaken : (a b : ℕ) (e : Event) → a ≤ b → IsPending a e → IsPending b e
IsPending-weaken a b e l (m, (n, k, named)) = (m, (n, omega arith, named))

pub IsPublishing-weaken : (a b : ℕ) (p : Pc) → a ≤ b → IsPublishing a p → IsPublishing b p
IsPublishing-weaken a b idle l h = tt
IsPublishing-weaken a b (increasing k e) l h = h
IsPublishing-weaken a b (drawing e) l h = h
IsPublishing-weaken a b (numbered e) l h = IsPending-weaken a b e l h
IsPublishing-weaken a b (notified e) l h = IsPending-weaken a b e l h

module _ (lib : Libraries) (L : LevelDb (List ℕ)) where
  pub record IsSound (s : System L) : Type 0 where
    -- no number above it has been drawn
    pub top : ℕ
    pub queue : IsBounded L top s.hub.queue
    pub active : All (IsActive s.connected) s.hub.active_clients
    pub sorted : IsSorted s.hub.active_clients
    pub opened : (c : ℕ) → s.connected c ≡ true → (s.hub.closed c ≡ false) × (c < s.next_client)
    pub fresh : (c : ℕ) → s.next_client ≤ c → s.hub.closed c ≡ false
    pub pending : (e : Event) → s.notifier ≡ some e → IsPending top e
    pub publishing : (i : ℕ) → IsPublishing top (s.publishers i)

  AreOpen-active :
      (connected closed : ℕ → Bool) (active : List (ℕ × Subscriber))
      → ((c : ℕ) → connected c ≡ true → closed c ≡ false)
      → All (IsActive connected) active
      → AreOpen closed active
  AreOpen-active connected closed [] o h = tt
  AreOpen-active connected closed (a ∷ active) o ((named, live), h) =
      ((named, o a.0 live), AreOpen-active connected closed active o h)

  pub sound-AreOpen : (s : System L) → IsSound s → AreOpen s.hub.closed s.hub.active_clients
  sound-AreOpen s h =
      AreOpen-active s.connected s.hub.closed s.hub.active_clients (λ c k. (h.opened c k).0)
        h.active

  get_all_after-returns :
      (id : String) (q : LevelDbEventQueue L) (m : String) → get_all_after lib L id q ≢ panicked m
  unfolding get_all_after
  get_all_after-returns id q m h = ground arith

  -- A new client is registered, whatever is replayed to it.
  pub joined :
      (r : Subscriber) (c : Controller L)
      → c.closed r.client ≡ false
      → (ms : List Delivery) × (handle lib L (subscribing r) c ≡ (
        ok tt,
        record c {
          active_clients = SortedMap.insert r.client r c.active_clients;
          sent = c.sent ++ ms;
        },
      ))
  unfolding handle
  joined r c o = elim (Bool-cases (r.last_event_id == "")) [
    | inl anew ↦ ([], rw (anew, append-nil c.sent) refl)
    | inr resumes ↦
        let (ms, e) =
          replayed (get_all_after lib L r.last_event_id c.queue)
            (get_all_after-returns r.last_event_id c.queue) in
        (ms, rw resumes e)
  ]
    where
      after_insert : Controller L
      after_insert = record c { active_clients = SortedMap.insert r.client r c.active_clients }

      replayed :
          (missed : Result (List Event))
          → ((m : String) → missed ≢ panicked m)
          → (ms : List Delivery) × (replay lib L r missed after_insert
              ≡ (ok tt, record after_insert { sent = c.sent ++ ms }))
      replayed (ok es) returns =
          let (ms, sends, _) = send_missed-received c.closed r o es in (ms, rw sends refl)
      replayed (err e) returns = ([], rw (append-nil c.sent) refl)
      replayed (panicked m) returns = absurd (returns m refl)

  pub left :
      (client : ℕ) (c : Controller L)
      → c.closed client ≡ false
      → handle lib L (unsubscribing client) c ≡ (
        ok tt,
        record c {
          active_clients = SortedMap.erase client c.active_clients;
          closed = close_channel client c.closed;
        },
      )
  unfolding handle
  left client c o = rw o refl
