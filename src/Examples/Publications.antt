-- ===== src/Examples/Publications.antt =====
-- The theorem on the publication of an event, on a concrete input.
use thing_directory.Common.Order.{text_order}
use thing_directory.Wot.{key_thing_id}
use thing_directory.Common.{
  String, some, false, ◌==◌, ℕ, ◌≡◌, refl, none, List, [], ◌∷◌, ◌++◌, arith,
}
use thing_directory.Common.Order.{bytes_order, nat_order}
use thing_directory.Common.SortedMap
use thing_directory.Json.Print.{print, marshal, is_printable}
use thing_directory.Notification.Numbers.{format_uint, to_hex, digit}
use thing_directory.Notification.Queue.{Event, event_value}
use thing_directory.Notification.Queue.History.{Refines}
use thing_directory.Notification.Queue.Invariant.{plain_event}
use thing_directory.Notification.Queue.Appending.{recent}
use thing_directory.Notification.Controller.{Delivery, handle, create_event}
use thing_directory.Notification.Controller.Receiving.{received, IsServed}
use thing_directory.Notification.Controller.Steps.{
  idle, System, new_controller, Reaches, stay, go_on, join,
}
use thing_directory.Notification.Controller.Steps.Soundness.{IsSound}
use thing_directory.Notification.Controller.Steps.Safety.{new_controller-IsSound, Reaches-IsSound}
use thing_directory.Notification.Controller.Steps.Publishing.{publishes}
use thing_directory.Wot.{event_type_update}
use thing_directory.Errors.{ok}
use thing_directory.Json.{get, ThingDescription, field, end, text, object}
use thing_directory.Json.RoundTrip.{IsMap, plain, plain_fields}
use thing_directory.Json.Maps.{unmarshal_map-print}
use thing_directory.Notification.Controller.{update_event}
use thing_directory.Notification.Controller.Updates.{merge_value, Leads, update_event-Leads}
use thing_directory.Examples.{test_lib, test_queue_db, new_lamp}
use thing_directory.Examples.Witnesses.{new_lamp-IsMap}
use thing_directory.Examples.Answers.{queue}
use thing_directory.Examples.Notifications.{sure, queue-IsQueue, queue-Refines, history, subscriber}

-- A client has subscribed.
abbrev joined : (s : System test_queue_db) × Reaches test_lib test_queue_db (new_controller queue) s
unfolding handle SortedMap.insert
joined = (_, go_on stay (join (subscriber 0 "") refl))

joined-IsSound : IsSound test_lib test_queue_db joined.0
joined-IsSound =
    Reaches-IsSound test_lib test_queue_db joined.1
      (new_controller-IsSound test_lib test_queue_db queue queue-IsQueue)

abbrev lamp_event : Event
lamp_event = record { id = "3"; type = "create"; content = new_lamp }

publishes_example :
    (t : System test_queue_db) × Reaches test_lib test_queue_db joined.0 t
    × (t.publishers 7 ≡ idle)
    × (t.notifier ≡ none)
    × ((ms : List Delivery) × (t.hub.sent ≡ [] ++ ms)
        × ((client : ℕ)
            → IsServed
                (SortedMap.lookup client joined.0.hub.active_clients)
                (lamp_event ∷ [])
                (received client ms)))
    × Refines
        (recent test_lib test_queue_db sure
            (record queue { latest_id = 3 })
            (omega arith)
            (omega arith)
            history
          ++ (3, plain_event test_lib.rfc lamp_event) ∷ [])
        (test_queue_db.contents t.hub.queue.db)
unfolding handle SortedMap.insert format_uint to_hex digit create_event marshal is_printable
publishes_example =
    publishes test_lib test_queue_db sure joined.0 joined-IsSound 7 (create_event new_lamp)
      (print test_lib.rfc (event_value lamp_event) []) history refl refl new_lamp-IsMap
      (omega arith) (omega arith) (omega arith) queue-Refines (omega arith, tt) refl

-- An old and a new lamp with the same members, of which the merge patch may be the new one.
abbrev newer_lamp : ThingDescription
newer_lamp = field "id" (text "urn:lamp") (field "title" (text "Newer lamp") end)

newer_lamp-IsMap : IsMap newer_lamp
newer_lamp-IsMap = ((refl, tt), tt, (tt, tt, tt))

newer_lamp-Leads : Leads test_lib new_lamp newer_lamp (plain_fields test_lib.rfc newer_lamp)
unfolding plain merge_value SortedMap.lookup
newer_lamp-Leads k = ground arith

update_event-Leads_example :
    (e : Event) × (update_event test_lib new_lamp newer_lamp ≡ ok e)
    × (e.type ≡ event_type_update)
    × (get key_thing_id e.content ≡ some (text "urn:lamp"))
    × ((k : String)
        → (key_thing_id == k) ≡ false
        → get k e.content ≡ get k (plain_fields test_lib.rfc newer_lamp))
    × Leads test_lib new_lamp newer_lamp e.content
unfolding is_printable SortedMap.lookup
update_event-Leads_example =
    update_event-Leads test_lib new_lamp newer_lamp (print test_lib.rfc (object newer_lamp) [])
      (plain_fields test_lib.rfc newer_lamp) "urn:lamp" refl refl refl
      (unmarshal_map-print test_lib.rfc newer_lamp newer_lamp-IsMap) newer_lamp-Leads refl refl
