-- ===== src/Catalog/Registration.antt =====
-- The utility functions of catalog/controller.go on the registration of a Thing Description.
pub mod Laws
pub mod Expiration
use thing_directory.Common.{String, Option, none, some}
use thing_directory.Time.{Time, Float64, Rfc3339, seconds, add_duration}
use thing_directory.Wot.{
  ThingRegistration, key_thing_registration, key_created, key_modified, key_expires, key_ttl,
}
use thing_directory.Errors.{Result, ok, err, panicked, ◌>>=◌}
use thing_directory.Json.{Value, number, object, ThingDescription, Fields, get, as_text}

abbrev pub as_number : Option Value → Option Float64
as_number (some (number x)) = some x
as_number _ = none

module _ (rfc : Rfc3339) where
  -- A member that is no text is passed over, and a text that is no time panics.
  parsed_time : Option String → Result (Option Time)
  parsed_time none = ok none
  parsed_time (some s) = elim (rfc.parse s) [
    | none ↦ panicked "cannot parse time"
    | some t ↦ ok (some t)
  ]

  unfoldable pub parsed_registration : Fields → Result ThingRegistration
  unfolding parsed_time
  parsed_registration tr = do
    created ← parsed_time (as_text (get key_created tr))
    modified ← parsed_time (as_text (get key_modified tr))
    expires ← parsed_time (as_text (get key_expires tr))
    ok (record {
      created = created;
      expires = expires;
      modified = modified;
      retrieved = none;
      ttl = as_number (get key_ttl tr);
    })

  abbrev pub of_member : Option Value → Result (Option ThingRegistration)
  of_member (some (object tr)) = parsed_registration tr >>= λ r. ok (some r)
  of_member _ = ok none

  -- ThingRegistration(td): `none` is nil.
  unfoldable pub thing_registration : ThingDescription → Result (Option ThingRegistration)
  unfolding parsed_registration
  thing_registration td = of_member (get key_thing_registration td)

abbrev expiry_of : Option Float64 → Option Time → Time → Option Time
expiry_of (some ttl) expires now = some (add_duration now (seconds ttl))
expiry_of none expires now = expires

unfoldable pub compute_expiry : Option ThingRegistration → Time → Option Time
compute_expiry none now = none
compute_expiry (some tr) now = expiry_of tr.ttl tr.expires now

unfoldable pub thing_expires : Option ThingRegistration → Option Time
thing_expires none = none
thing_expires (some tr) = tr.expires

unfoldable pub thing_ttl : Option ThingRegistration → Option Float64
thing_ttl none = none
thing_ttl (some tr) = tr.ttl
