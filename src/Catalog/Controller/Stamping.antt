-- ===== src/Catalog/Controller/Stamping.antt =====
-- The registration that the directory promises to write into a Thing Description, said apart from the
-- code that computes it.
use thing_directory.Common.{◌≡◌, refl, Option, none, some}
use thing_directory.Common.Order.{text_order}
use thing_directory.Time.{Time, Float64, add_duration, seconds}
use thing_directory.Wot.{ThingRegistration}
use thing_directory.Json.{ThingDescription, registration, put}
use thing_directory.Catalog.Registration.{compute_expiry, thing_ttl}
use thing_directory.Catalog.Controller.{stamp}

-- A lifetime counts from the stamping; without one, what the client has sent holds.
abbrev due_after : Option Float64 → Option Time → Time → Option Time
due_after none sent now = sent
due_after (some lifetime) sent now = some (add_duration now (seconds lifetime))

abbrev due : Option ThingRegistration → Time → Option Time
due none now = none
due (some sent) now = due_after sent.ttl sent.expires now

abbrev lifetime : Option ThingRegistration → Option Float64
lifetime none = none
lifetime (some sent) = sent.ttl

-- The Thing Description with its registration: created at the first time, and modified at the second.
abbrev pub promised :
    Option Time → Option ThingRegistration → Time → ThingDescription → ThingDescription
promised created sent now td =
    put "registration"
      (registration (record {
        created = created;
        modified = some now;
        expires = due sent now;
        retrieved = none;
        ttl = lifetime sent;
      }))
      td

pub stamp-promised :
    (created : Option Time) (sent : Option ThingRegistration) (now : Time) (td : ThingDescription)
    → stamp created sent now td ≡ promised created sent now td
unfolding stamp compute_expiry thing_ttl
stamp-promised created none now td = refl
stamp-promised created (some sent) now td = go sent.ttl sent.expires
  where
    go :
        (ttl : Option Float64) (expires : Option Time)
        → stamp created (some (record sent { ttl = ttl; expires = expires })) now td
          ≡ promised created (some (record sent { ttl = ttl; expires = expires })) now td
    go none expires = refl
    go (some lifetime) expires = refl
