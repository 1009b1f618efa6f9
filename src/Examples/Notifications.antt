-- ===== src/Examples/Notifications.antt =====
-- The theorems on the notifications, each on a concrete input.
use thing_directory.Common.{ℕ, ◌≤◌, ◌≡◌, refl, false, String, List, [], ◌∷◌, ◌++◌, eqb, arith}
use thing_directory.Common.Order.{bytes_order, nat_order}
use thing_directory.Common.SortedMap
use thing_directory.Errors.{ok}
use thing_directory.LevelDb.{IsFaultless}
use thing_directory.LevelDb.Memory.{memory-IsFaultless}
use thing_directory.Notification.Numbers.{format_uint, to_hex, digit}
use thing_directory.Notification.Queue.{Event, get_all_after, new_level_db_event_queue}
use thing_directory.Notification.Queue.History.{Refines, after, get_all_after-history}
use thing_directory.Notification.Queue.Invariant.{IsBounded, IsQueue, plain_event, read_event-print}
use thing_directory.Notification.Queue.Restart.{new_level_db_event_queue-IsQueue}
use thing_directory.Notification.Controller.{
  Subscriber, Controller, Delivery, handle, subscribing, unsubscribing, notifying,
}
use thing_directory.Notification.Controller.Receiving.{received, IsServed, Receives}
use thing_directory.Notification.Controller.Delivery.{handle-notifying, handle-subscribing}
use thing_directory.Notification.Controller.Steps.{
  System, new_controller, Reaches, stay, go_on, load, draw, read_number, notify, join,
}
use thing_directory.Notification.Controller.Steps.Safety.{handle-returns, Reaches-IsBounded}
use thing_directory.Examples.{test_lib, test_queue_db}
use thing_directory.Examples.Witnesses.{new_lamp-IsMap}
use thing_directory.Examples.Answers.{event, event_bytes, queue}
use thing_directory.Notification.Queue.Appending.{recent, add_rotate-history}
use thing_directory.Notification.Queue.{add_rotate, LevelDbEventQueue}
use thing_directory.Json.Print.{marshal, is_printable}

pub sure : IsFaultless test_queue_db
sure = memory-IsFaultless (List ℕ)

abbrev pub history : List (ℕ × Event)
history = (1, plain_event test_lib.rfc (event "1")) ∷ []

pub queue-Refines : Refines history (test_queue_db.contents queue.db)
unfolding SortedMap.insert
queue-Refines = ((omega arith, refl, read_event-print test_lib.rfc (event "1") new_lamp-IsMap), tt)

pub queue-IsQueue : IsQueue test_queue_db queue
unfolding SortedMap.insert format_uint to_hex digit
queue-IsQueue = record {
  bounded = omega arith;
  each = ((1, plain_event test_lib.rfc (event "1"), omega arith, refl, queue-Refines.0), tt);
}

get_all_after-history_example :
    get_all_after test_lib test_queue_db (format_uint 0) queue ≡ ok (after 0 history)
get_all_after-history_example =
    get_all_after-history test_lib test_queue_db sure queue history 0 queue-Refines (omega arith)

new_level_db_event_queue-IsQueue_example :
    (n : ℕ) × (n ≤ queue.latest_id)
    × (new_level_db_event_queue test_lib test_queue_db queue.db 5
        ≡ ok (record { db = queue.db; latest_id = n; capacity = 5 }))
    × IsQueue test_queue_db (record { db = queue.db; latest_id = n; capacity = 5 })
new_level_db_event_queue-IsQueue_example =
    new_level_db_event_queue-IsQueue test_lib test_queue_db sure queue 5 queue-IsQueue

abbrev pub subscriber : ℕ → String → Subscriber
subscriber client last = record {
  client = client;
  event_types = "create" ∷ [];
  diff = false;
  last_event_id = last;
}

abbrev controller : Controller test_queue_db
controller = record {
  queue = queue;
  active_clients = (0, subscriber 0 "") ∷ [];
  closed = λ c. false;
  sent = [];
}

handle-notifying_example :
    (ms : List Delivery) × (handle test_lib test_queue_db (notifying (event "2")) controller
      ≡ (ok tt, record controller { sent = [] ++ ms }))
    × ((client : ℕ)
        → IsServed
            (SortedMap.lookup client controller.active_clients)
            (event "2" ∷ [])
            (received client ms))
handle-notifying_example =
    handle-notifying test_lib test_queue_db controller ((refl, refl), tt) (tt, tt) (event "2")

handle-subscribing_example :
    (ms : List Delivery) × (handle test_lib test_queue_db
        (subscribing (subscriber 1 "0"))
        controller
      ≡ (
        ok tt,
        record controller {
          active_clients = SortedMap.insert 1 (subscriber 1 "0") controller.active_clients;
          sent = [] ++ ms;
        },
      ))
    × Receives (subscriber 1 "0") (after 0 history) (received 1 ms)
    × ((client : ℕ) → eqb 1 client ≡ false → received client ms ≡ [])
unfolding format_uint to_hex digit
handle-subscribing_example =
    handle-subscribing test_lib test_queue_db controller ((refl, refl), tt) (tt, tt)
      (subscriber 1 "0") history 0 sure queue-Refines (omega arith) refl refl

-- A client has joined, and an event has been drawn, numbered and handed over.
abbrev busy : (s : System test_queue_db) × Reaches test_lib test_queue_db (new_controller queue) s
unfolding handle
busy = (
  _,
  go_on
      (go_on
        (go_on
          (go_on (go_on stay (join (subscriber 0 "") refl))
            (load 7 (event "") refl new_lamp-IsMap (omega arith)))
          (draw 7 2 (event "") refl))
        (read_number 7 (event "") refl))
      (notify 7 _ refl refl),
)

handle-returns_example : (handle test_lib test_queue_db (unsubscribing 0) busy.0.hub).0 ≡ ok tt
unfolding handle
handle-returns_example =
    handle-returns test_lib test_queue_db queue (unsubscribing 0) queue-IsQueue busy.1 refl

Reaches-IsBounded_example : (top : ℕ) × IsBounded test_queue_db top busy.0.hub.queue
Reaches-IsBounded_example = Reaches-IsBounded test_lib test_queue_db queue queue-IsQueue busy.1

add_rotate-history_example :
    (p : LevelDbEventQueue test_queue_db) × (add_rotate test_lib test_queue_db (event "2") queue
      ≡ ok p)
    × (p.latest_id ≡ queue.latest_id)
    × Refines
        (recent test_lib test_queue_db sure queue (omega arith) (omega arith) history
          ++ (2, plain_event test_lib.rfc (event "2")) ∷ [])
        (test_queue_db.contents p.db)
unfolding marshal is_printable format_uint to_hex digit
add_rotate-history_example =
    add_rotate-history test_lib test_queue_db sure queue (omega arith) (omega arith) history
      (event "2") (event_bytes "2") queue-Refines (omega arith, tt) new_lamp-IsMap refl refl
