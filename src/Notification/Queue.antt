-- ===== src/Notification/Queue.antt =====
-- notification/notification.go (Event) and notification/ldb_eventqueue.go: the events of the past, in
-- LevelDB under their numbers. The wait group is left out: each method that enters it leaves it.
pub mod Rotation
pub mod History
pub mod Invariant
pub mod Restart
pub mod Appending
use thing_directory.Common.{
  ℕ, ◌+◌, ◌-◌, ◌%◌, String, Option, none, some, List, [], ◌∷◌, map, ltb, if◌then◌else◌,
}
use thing_directory.Common.Order.{bytes_order, text_order}
use thing_directory.Errors.{plain, Result, ok, err, io, ◌>>=◌, ◌>>◌}
use thing_directory.Wot.{EventType}
use thing_directory.Json.{
  Value, null, text, object, ThingDescription, Fields, end, field, get, Bytes,
}
use thing_directory.Json.Print.{marshal}
use thing_directory.Json.Parse.{unmarshal_map}
use thing_directory.LevelDb.{LevelDb, BatchOp, Range, everything}
use thing_directory.Libraries.{Libraries}
use thing_directory.Notification.Numbers.{
  uint64_mod, uint64_to_byte, byte_to_uint64, format_uint, parse_uint,
}

pub record Event : Type 0 where
  pub id : String
  pub type : EventType
  pub content : ThingDescription

-- The JSON of an event, and back. A member that is missing or null leaves the field zero.
abbrev pub event_fields : Event → Fields
event_fields e =
    field "data" (object e.content) (field "event" (text e.type) (field "id" (text e.id) end))

abbrev pub event_value : Event → Value
event_value e = object (event_fields e)

abbrev text_or_zero : Option Value → Option String
text_or_zero none = some ""
text_or_zero (some null) = some ""
text_or_zero (some (text s)) = some s
text_or_zero (some _) = none

abbrev map_or_zero : Option Value → Option Fields
map_or_zero none = some end
map_or_zero (some null) = some end
map_or_zero (some (object fs)) = some fs
map_or_zero (some _) = none

abbrev pub event_from : Option String → Option String → Option Fields → Option Event
event_from (some id) (some type) (some content) =
    some (record { id = id; type = type; content = content })
event_from _ _ _ = none

unfoldable pub event_of : Fields → Option Event
event_of fs =
    event_from (text_or_zero (get "id" fs)) (text_or_zero (get "event" fs))
      (map_or_zero (get "data" fs))

abbrev pub or_error {ℓ} : {A : Type ℓ} → String → Option A → Result A
or_error m none = err (plain m)
or_error m (some a) = ok a

abbrev pub checked : Option String → Result (Unit {0})
checked none = ok tt
checked (some m) = err (plain m)

unfoldable pub read_event : Bytes → Option Event
unfolding event_of
read_event bytes = elim (unmarshal_map bytes) [ none ↦ none | some fs ↦ event_of fs ]

-- The loop of `getAllAfter`: an entry that is no event ends it with an error.
unfoldable pub read_events : List (List ℕ × Bytes) → Option (List Event)
unfolding read_event
read_events [] = some []
read_events ((key, bytes) ∷ entries) = elim (read_event bytes) [
  | none ↦ none
  | some e ↦ elim (read_events entries) [ none ↦ none | some es ↦ some (e ∷ es) ]
]

unfoldable pub last_key : List (List ℕ × Bytes) → Option (List ℕ)
last_key [] = none
last_key ((key, bytes) ∷ []) = some key
last_key (e ∷ f ∷ entries) = last_key (f ∷ entries)

pub record LevelDbEventQueue (L : LevelDb (List ℕ)) : Type 0 where
  pub db : L.Db
  pub latest_id : ℕ
  pub capacity : ℕ

module _ (lib : Libraries) (L : LevelDb (List ℕ)) where
  unfoldable pub fetch_latest_id : L.Db → Result ℕ
  unfolding last_key
  fetch_latest_id db = do
    checked (L.scan db everything).1
    ok (elim (last_key (L.scan db everything).0) [ none ↦ 0 | some key ↦ byte_to_uint64 key ])

  unfoldable pub new_level_db_event_queue : L.Db → ℕ → Result (LevelDbEventQueue L)
  unfolding fetch_latest_id
  new_level_db_event_queue db capacity = do
    latest ← fetch_latest_id db
    ok (record { db = db; latest_id = latest; capacity = capacity })

  -- The deletions for the entries whose keys are below `latestID - capacity + 1`.
  abbrev pub outdated : LevelDbEventQueue L → Range (List ℕ)
  outdated q = record {
    start = none;
    limit = some (uint64_to_byte ((q.latest_id - q.capacity + 1) % uint64_mod));
  }

  unfoldable pub cleanup : LevelDbEventQueue L → Result (List (BatchOp (List ℕ)))
  cleanup q =
      if ltb q.capacity q.latest_id
      then (checked (L.scan q.db (outdated q)).1
          >> ok (map (λ e. BatchOp.delete e.0) (L.scan q.db (outdated q)).0))
      else ok []

  unfoldable pub add_rotate : Event → LevelDbEventQueue L → Result (LevelDbEventQueue L)
  unfolding cleanup
  add_rotate e q = do
    bytes ← or_error "error marshalling event" (marshal lib.rfc (event_value e))
    number ← or_error "error parsing event ID" (parse_uint e.id)
    deletions ← cleanup q
    db ← io (L.write q.db (BatchOp.put (uint64_to_byte number) bytes ∷ deletions))
    ok (record q { db = db })

  unfoldable pub get_all_after : String → LevelDbEventQueue L → Result (List Event)
  unfolding read_events
  get_all_after id q = do
    number ← or_error "error parsing latest ID" (parse_uint id)
    let entries =
        L.scan q.db
          (record { start = some (uint64_to_byte ((number + 1) % uint64_mod)); limit = none })
    events ← or_error "error unmarshalling event" (read_events entries.0)
    checked entries.1
    ok events

  -- `s.latestID += 1` wraps around.
  unfoldable pub get_new_id : LevelDbEventQueue L → String × LevelDbEventQueue L
  get_new_id q =
      let latest = (q.latest_id + 1) % uint64_mod in
      (format_uint latest, record q { latest_id = latest })
