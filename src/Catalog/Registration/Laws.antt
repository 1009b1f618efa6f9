-- ===== src/Catalog/Registration/Laws.antt =====
-- A registration that the directory wrote is read back from the stored text.
use thing_directory.Common.{◌≡◌, refl, true, String, Option, none, some, arith, ltb→lt}
use thing_directory.Time.{Time, Float64, Rfc3339, year_10000, add_duration, seconds}
use thing_directory.Wot.{ThingRegistration, key_thing_registration}
use thing_directory.Errors.{ok}
use thing_directory.Json.{registration, ThingDescription, get, of_fields, as_text}
use thing_directory.Json.Print.{members, has_json_times, in_years}
use thing_directory.Json.RoundTrip.{plain, plain_fields}
use thing_directory.Json.Maps.{get-plain}
use thing_directory.Common.SortedMap
use thing_directory.Common.Order.{text_order}
use thing_directory.Catalog.Registration.{
  as_number, parsed_time, parsed_registration, thing_registration, compute_expiry,
}

module _ (rfc : Rfc3339) where
  -- The text of a time, as a member.
  abbrev time_text : Option Time → Option String
  time_text none = none
  time_text (some t) = some (rfc.format t)

  parsed_time-format : (t : Option Time) → in_years t ≡ true → parsed_time rfc (time_text t) ≡ ok t
  unfolding parsed_time
  parsed_time-format none h = refl
  parsed_time-format (some t) h = rw (rfc.parse-format t (ltb→lt t year_10000 h))

  -- Each member of the struct is found in the map that it is printed as.
  member_created :
      (r : ThingRegistration)
      → as_text (get "created" (of_fields (members rfc r))) ≡ time_text r.created
  unfolding SortedMap.lookup
  member_created r = ground arith

  member_modified :
      (r : ThingRegistration)
      → as_text (get "modified" (of_fields (members rfc r))) ≡ time_text r.modified
  unfolding SortedMap.lookup
  member_modified r = ground arith

  member_expires :
      (r : ThingRegistration)
      → as_text (get "expires" (of_fields (members rfc r))) ≡ time_text r.expires
  unfolding SortedMap.lookup
  member_expires r = ground arith

  member_ttl : (r : ThingRegistration) → as_number (get "ttl" (of_fields (members rfc r))) ≡ r.ttl
  unfolding SortedMap.lookup
  member_ttl r = ground arith

  -- The struct, as it is read back from its text: `retrieved` is not read.
  abbrev pub reread : ThingRegistration → ThingRegistration
  reread r = record r { retrieved = none }

  parsed_registration-members :
      (r : ThingRegistration)
      → has_json_times r ≡ true
      → parsed_registration rfc (of_fields (members rfc r)) ≡ ok (reread r)
  unfolding parsed_registration has_json_times
  parsed_registration-members r h =
      rw
        (
          member_created r,
          member_modified r,
          member_expires r,
          member_ttl r,
          parsed_time-format r.created (ground arith),
          parsed_time-format r.modified (ground arith),
          parsed_time-format r.expires (ground arith),
        )
        refl

  -- A registration that the directory stored in a Thing Description is read back from its JSON text
  -- with the same times and TTL and without the retrieval time, if its times are before the year
  -- 10000.
  pub thing_registration-plain :
      (r : ThingRegistration) (td : ThingDescription)
      → has_json_times r ≡ true
      → get key_thing_registration td ≡ some (registration r)
      → thing_registration rfc (plain_fields rfc td) ≡ ok (some (reread r))
  unfolding thing_registration plain
  thing_registration-plain r td h e =
      rw (get-plain rfc key_thing_registration td, e, parsed_registration-members r h) refl

-- With a TTL the expiry is the time of the call and the TTL; without one it is what the client sent.
pub compute_expiry-ttl :
    (tr : ThingRegistration) (ttl : Float64) (now : Time)
    → tr.ttl ≡ some ttl
    → compute_expiry (some tr) now ≡ some (add_duration now (seconds ttl))
unfolding compute_expiry
compute_expiry-ttl tr ttl now e = rw e
