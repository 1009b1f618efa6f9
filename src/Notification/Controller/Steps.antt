-- ===== src/Notification/Controller/Steps.antt =====
-- The goroutines around the controller, interleaved in any order: those that publish an event, by
-- `storeAndNotify`, the loop of `handler`, and the SSE handlers, which subscribe a new channel and leave
-- it once. `s.latestID += 1` loads the number and stores the next one, and the number is read again for
-- the id: three steps, since no lock guards them. `addRotate` is one step. After `Stop` the steps of the loop are missing.
pub mod Soundness
pub mod Preservation
pub mod Safety
pub mod Publishing
use thing_directory.Common.{
  ℕ, ◌+◌, ◌<◌, ◌≡◌, ◌≢◌, Bool, true, false, String, Option, none, some, List, [], eqb,
  if◌then◌else◌,
}
use thing_directory.Common.Order.{bytes_order, nat_order}
use thing_directory.Errors.{Result, ok}
use thing_directory.Json.RoundTrip.{IsMap}
use thing_directory.LevelDb.{LevelDb}
use thing_directory.Libraries.{Libraries}
use thing_directory.Notification.Numbers.{uint64_mod, format_uint}
use thing_directory.Notification.Queue.{Event, LevelDbEventQueue, add_rotate, get_new_id}
use thing_directory.Notification.Controller.{
  Subscriber, Controller, handle, subscribing, unsubscribing, notifying,
}

-- Where a goroutine stands in `storeAndNotify`.
pub data Pc : Type 0 where
  idle : Pc
  increasing : ℕ → Event → Pc  -- between the load of the latest number and the store of the next
  drawing : Event → Pc  -- between the increment and the reading of the number
  numbered : Event → Pc  -- before the send to `Notifier`
  notified : Event → Pc  -- before the call of `addRotate`

abbrev pub update {ℓ} : {A : Type ℓ} → (ℕ → A) → ℕ → A → ℕ → A
update f i a j = if eqb i j then a else f j

pub record System (L : LevelDb (List ℕ)) : Type 0 where
  pub hub : Controller L
  -- the buffer of `Notifier`, of size 1
  pub notifier : Option Event
  pub publishers : ℕ → Pc
  -- the channels whose SSE handler has subscribed and not left
  pub connected : ℕ → Bool
  pub next_client : ℕ

-- NewController
abbrev pub new_controller : {L : LevelDb (List ℕ)} → LevelDbEventQueue L → System L
new_controller queue = record {
  hub = record { queue = queue; active_clients = []; closed = λ c. false; sent = [] };
  notifier = none;
  publishers = λ i. idle;
  connected = λ c. false;
  next_client = 0;
}

module _ (lib : Libraries) (L : LevelDb (List ℕ)) where
  abbrev pub with_queue : System L → LevelDbEventQueue L → Controller L
  with_queue s q = record s.hub { queue = q }

  pub data Step (s : System L) : System L → Type 0 where
    load :
        (i : ℕ) (e : Event)
        → s.publishers i ≡ idle
        → IsMap e.content
        → s.hub.queue.latest_id + 1 < uint64_mod
        → Step s
            (record s { publishers = update s.publishers i (increasing s.hub.queue.latest_id e) })
    -- The number that was loaded may be an old one by now.
    draw :
        (i k : ℕ) (e : Event)
        → s.publishers i ≡ increasing k e
        → Step s (record s {
          hub = with_queue s (get_new_id lib L (record s.hub.queue { latest_id = k })).1;
          publishers = update s.publishers i (drawing e);
        })
    read_number :
        (i : ℕ) (e : Event)
        → s.publishers i ≡ drawing e
        → Step s (record s {
          publishers =
              update s.publishers i
                (numbered (record e { id = format_uint s.hub.queue.latest_id }));
        })
    notify :
        (i : ℕ) (e : Event)
        → s.publishers i ≡ numbered e
        → s.notifier ≡ none
        → Step s (record s { notifier = some e; publishers = update s.publishers i (notified e) })
    store :
        (i : ℕ) (e : Event) (q : LevelDbEventQueue L)
        → s.publishers i ≡ notified e
        → add_rotate lib L e s.hub.queue ≡ ok q
        → Step s (record s { hub = with_queue s q; publishers = update s.publishers i idle })
    store_fails :
        (i : ℕ) (e : Event)
        → s.publishers i ≡ notified e
        → ((q : LevelDbEventQueue L) → add_rotate lib L e s.hub.queue ≢ ok q)
        → Step s (record s { publishers = update s.publishers i idle })
    take :
        (e : Event)
        → s.notifier ≡ some e
        → Step s (record s { hub = (handle lib L (notifying e) s.hub).1; notifier = none })
    join :
        (r : Subscriber)
        → r.client ≡ s.next_client
        → Step s (record s {
          hub = (handle lib L (subscribing r) s.hub).1;
          connected = update s.connected r.client true;
          next_client = s.next_client + 1;
        })
    leave :
        (c : ℕ)
        → s.connected c ≡ true
        → Step s (record s {
          hub = (handle lib L (unsubscribing c) s.hub).1;
          connected = update s.connected c false;
        })

  pub data Reaches (s : System L) : System L → Type 0 where
    stay : Reaches s s
    go_on : {t u : System L} → Reaches s t → Step t u → Reaches s u
