-- ===== src/Notification/Sse.antt =====
-- notification/sse.go: the handler of a subscription. It refuses the request or subscribes a new channel,
-- and then writes each event that it receives.
use Prim.Native.String.{◌++◌ as text_append}
use thing_directory.Common.{
  ◌≡◌, refl, ℕ, ◌+◌, String, none, some, List, [], ◌∷◌, Bool, true, ◌&&◌, map, leb, ◌==◌,
  if◌then◌else◌,
}
use thing_directory.Common.Order.{codes, same_bytes}
use thing_directory.Time.{Rfc3339}
use thing_directory.Wot.{
  EventType, is_valid, event_type_create, event_type_update, event_type_delete,
}
use thing_directory.Errors.{plain, error_text, Result, ok, err, panicked}
use thing_directory.Json.{object, Bytes}
use thing_directory.Json.Print.{marshal}
use thing_directory.Catalog.Responses.{
  Response, error_response, status_bad_request, status_internal_server_error,
}
use thing_directory.Notification.Queue.{Event}
use thing_directory.Notification.Controller.{Subscriber}

-- What the handler reads of a request, the number of its new channel, and the UUID of an error.
pub record SubscribeRequest : Type 0 where
  pub form : String → String
  -- mux.Vars: the type in the path, "" if there is none
  pub type : String
  pub last_event_id : String
  -- whether the connection can flush
  pub flusher : Bool
  pub channel : ℕ
  pub instance_uuid : String

-- strings.EqualFold of a text and "true", whose letters fold to their capitals only
fold : ℕ → ℕ
fold c = if leb b'A' c && leb c b'Z' then c + 32 else c

unfoldable pub is_true : String → Bool
unfolding fold
is_true s = same_bytes (map fold (codes s)) (codes "true")

unfoldable pub parse_query_parameters : SubscribeRequest → Bool
unfolding is_true
parse_query_parameters req = is_true (req.form "diff")

unfoldable pub parse_path : String → Result (List EventType)
parse_path type =
    if type == ""
    then ok (event_type_create ∷ event_type_update ∷ event_type_delete ∷ [])
    else if is_valid type
    then ok (type ∷ [])
    else err (plain "invalid type in path")

pub data Subscription : Type 0 where
  refused : Response → Subscription
  streaming : String → Subscriber → Subscription

abbrev subscribed : SubscribeRequest → String → Result (List EventType) → Subscription
subscribed req kind (ok types) =
    if req.flusher
    then streaming kind (record {
      client = req.channel;
      event_types = types;
      diff = parse_query_parameters req;
      last_event_id = req.last_event_id;
    })
    else refused
        (error_response req.instance_uuid status_internal_server_error "Streaming unsupported")
subscribed req kind (err e) =
    refused (error_response req.instance_uuid status_bad_request (error_text e))
subscribed req kind (panicked m) = refused (error_response req.instance_uuid status_bad_request m)

-- NewSSEAPI
unfoldable pub content_type : String → String
content_type version =
    if version == "" then "text/event-stream" else text_append "text/event-stream;version=" version

unfoldable pub subscribe_event : String → SubscribeRequest → Subscription
unfolding parse_path parse_query_parameters content_type
subscribe_event version req = subscribed req (content_type version) (parse_path req.type)

-- The three lines that are written for an event, and an empty one. An event that is not JSON is written
-- without data.
pub record Frame : Type 0 where
  pub event : String
  pub id : String
  pub content : Bytes

unfoldable pub frame : Rfc3339 → Event → Frame
frame rfc e = record {
  event = e.type;
  id = e.id;
  content = elim (marshal rfc (object e.content)) [ none ↦ [] | some bytes ↦ bytes ];
}

unfoldable pub stream : Rfc3339 → List Event → List Frame
unfolding frame
stream rfc events = map (frame rfc) events

diff_test : is_true "TrUe" ≡ true
unfolding is_true
diff_test = refl

path_test : parse_path "update" ≡ ok ("update" ∷ [])
unfolding parse_path is_valid
path_test = refl
