-- ===== src/Notification/Controller.antt =====
-- notification/controller.go: the controller that stores the events of the directory and passes them on
-- to the subscribers. A client is the number of its channel. The loop of `handler` takes one message at a
-- time from its four channels; what it sends is collected in `sent`, in the order of sending. Go walks
-- through the map of active clients in any order, which no single client can tell from that of their
-- numbers.
pub mod Receiving
pub mod Delivery
pub mod Steps
pub mod Updates
use thing_directory.Common.{
  ℕ, String, Option, none, some, List, [], ◌∷◌, ◌++◌, Bool, true, false, any, ◌==◌, if◌then◌else◌,
}
use thing_directory.Common.Order.{text_order, bytes_order, nat_order}
use thing_directory.Common.SortedMap
use thing_directory.Errors.{Error, plain, Result, ok, err, panicked, Io, done, fault, ◌>>=◌}
use thing_directory.Exec.{Exec}
use thing_directory.Wot.{
  EventType, key_thing_id, event_type_create, event_type_update, event_type_delete,
}
use thing_directory.Json.{
  Value, null, object, ThingDescription, Fields, end, field, get, put, Bytes,
}
use thing_directory.Json.Print.{marshal}
use thing_directory.Json.Parse.{unmarshal_map}
use thing_directory.LevelDb.{LevelDb}
use thing_directory.Libraries.{Libraries}
use thing_directory.Notification.Queue.{Event, LevelDbEventQueue, get_all_after, or_error}

pub record Subscriber : Type 0 where
  pub client : ℕ
  pub event_types : List EventType
  pub diff : Bool
  pub last_event_id : String

-- A message and the channel that it is sent to.
abbrev pub Delivery : Type 0
Delivery = ℕ × Event

pub record Controller (L : LevelDb (List ℕ)) : Type 0 where
  pub queue : LevelDbEventQueue L
  pub active_clients : List (ℕ × Subscriber)
  pub closed : ℕ → Bool
  pub sent : List Delivery

-- td[wot.KeyThingID], which is nil if there is none
abbrev pub thing_id : ThingDescription → Value
thing_id td = elim (get key_thing_id td) [ none ↦ null | some v ↦ v ]

-- The handlers' events, which have no id yet.
abbrev event_of_type : EventType → ThingDescription → Event
event_of_type type content = record { id = ""; type = type; content = content }

unfoldable pub create_event : ThingDescription → Event
create_event td = event_of_type event_type_create td

unfoldable pub delete_event : ThingDescription → Event
delete_event old = event_of_type event_type_delete (field key_thing_id (thing_id old) end)

abbrev patch_or_error : Io Bytes → Result Bytes
patch_or_error (done patch) = ok patch
patch_or_error (fault m) = err (plain "error merging new TD")

unfoldable pub update_event : Libraries → ThingDescription → ThingDescription → Result Event
update_event lib old new = do
  old_json ← or_error "error marshalling old TD" (marshal lib.rfc (object old))
  new_json ← or_error "error marshalling new TD" (marshal lib.rfc (object new))
  patch ← patch_or_error (lib.create_merge_patch old_json new_json)
  td ← or_error "error unmarshalling the patch TD" (unmarshal_map patch)
  ok (event_of_type event_type_update (put key_thing_id (thing_id old) td))

-- sendToSubscriber: what it sends. To send on a closed channel panics.
abbrev pub is_wanted : Subscriber → Event → Bool
is_wanted s e = any (λ t. t == e.type) s.event_types

abbrev pub message : Subscriber → Event → Event
message s e =
    if s.diff then e else record e { content = field key_thing_id (thing_id e.content) end }

unfoldable pub send_to_subscriber : (ℕ → Bool) → Subscriber → Event → Result (List Delivery)
send_to_subscriber closed s e =
    if is_wanted s e
    then (if closed s.client
        then panicked "send on closed channel"
        else ok ((s.client, message s e) ∷ []))
    else ok []

-- The loops over the missed events of a subscriber, and over the active clients.
unfoldable pub send_missed : (ℕ → Bool) → Subscriber → List Event → Result (List Delivery)
unfolding send_to_subscriber
send_missed closed s [] = ok []
send_missed closed s (e ∷ es) = do
  first ← send_to_subscriber closed s e
  more ← send_missed closed s es
  ok (first ++ more)

unfoldable pub broadcast : (ℕ → Bool) → List (ℕ × Subscriber) → Event → Result (List Delivery)
unfolding send_to_subscriber
broadcast closed [] e = ok []
broadcast closed ((client, s) ∷ active) e = do
  first ← send_to_subscriber closed s e
  more ← broadcast closed active e
  ok (first ++ more)

pub data Message : Type 0 where
  subscribing : Subscriber → Message
  unsubscribing : ℕ → Message
  notifying : Event → Message

-- close(clientChan)
abbrev pub close_channel : ℕ → (ℕ → Bool) → ℕ → Bool
close_channel client closed c = if nat_order.same c client then true else closed c

module _ (lib : Libraries) (L : LevelDb (List ℕ)) where
  -- The messages are sent, or the send that panics ends the program.
  abbrev pub send : Result (List Delivery) → Exec (Controller L) (Unit {0})
  send (ok ms) c = (ok tt, record c { sent = c.sent ++ ms })
  send (err e) c = (err e, c)
  send (panicked m) c = (panicked m, c)

  -- An error of the queue is logged.
  abbrev pub replay : Subscriber → Result (List Event) → Exec (Controller L) (Unit {0})
  replay s (ok missed) c = send (send_missed c.closed s missed) c
  replay s (err e) c = (ok tt, c)
  replay s (panicked m) c = (panicked m, c)

  -- One round of `handler`.
  unfoldable pub handle : Message → Exec (Controller L) (Unit {0})
  unfolding send_missed broadcast
  handle (subscribing s) c =
      let joined = record c { active_clients = SortedMap.insert s.client s c.active_clients } in
      if s.last_event_id == ""
      then (ok tt, joined)
      else replay s (get_all_after lib L s.last_event_id c.queue) joined
  handle (unsubscribing client) c =
      let left = record c { active_clients = SortedMap.erase client c.active_clients } in
      if c.closed client
      then (panicked "close of closed channel", left)
      else (ok tt, record left { closed = close_channel client c.closed })
  handle (notifying e) c = send (broadcast c.closed c.active_clients e) c
