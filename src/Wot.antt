-- ===== src/Wot.antt =====
-- wot/discovery.go and wot/error.go: the keys, the event types and the data that the directory adds.
pub mod Validation
use thing_directory.Common.{ℕ, ◌≡◌, refl, Bool, true, false, ◌||◌, String, Option, List, ◌==◌}
use thing_directory.Time.{Time, Float64}

abbrev pub dnssd_service_type : String
dnssd_service_type = "_wot._tcp"

abbrev pub dnssd_service_subtype_directory : String
dnssd_service_subtype_directory = "_directory"

abbrev pub media_type_json_ld : String
media_type_json_ld = "application/ld+json"

abbrev pub media_type_json : String
media_type_json = "application/json"

-- wot/thing_description.go
abbrev pub media_type_thing_description : String
media_type_thing_description = "application/td+json"

abbrev pub key_thing_id : String
key_thing_id = "id"

abbrev pub key_thing_registration : String
key_thing_registration = "registration"

abbrev pub key_created : String
key_created = "created"

abbrev pub key_modified : String
key_modified = "modified"

abbrev pub key_expires : String
key_expires = "expires"

abbrev pub key_ttl : String
key_ttl = "ttl"

abbrev pub event_type_create : String
event_type_create = "create"

abbrev pub event_type_update : String
event_type_update = "update"

abbrev pub event_type_delete : String
event_type_delete = "delete"

abbrev pub EventType : Type 0
EventType = String

unfoldable pub is_valid : EventType → Bool
is_valid e = e == event_type_create || (e == event_type_update || e == event_type_delete)

pub record ThingRegistration : Type 0 where
  pub created : Option Time
  pub expires : Option Time
  pub modified : Option Time
  pub retrieved : Option Time
  pub ttl : Option Float64

pub record ValidationIssue : Type 0 where
  pub field : String
  pub descr : String

pub record ProblemDetails : Type 0 where
  pub title : String
  pub status : ℕ
  pub detail : String
  pub instance_uri : String
  pub validation_errors : List ValidationIssue
