-- ===== src/Catalog/Stored.antt =====
-- The invariant of the stored catalog, and that the controller keeps it. Each entry is the text of a
-- JSON object whose member `id` is the entry's key, with a registration that can be parsed.
pub mod Preservation
use thing_directory.Common.{
  ◌≡◌, refl, ap, ◌∙◌, Bool, true, false, ◌&&◌, String, Option, none, some, List, [], ◌∷◌, arith,
  All, ◌==◌, if◌then◌else◌,
}
use thing_directory.Common.Order.{text_order}
use thing_directory.Common.SortedMap
use thing_directory.Time.{Time, Rfc3339}
use thing_directory.Wot.{ThingRegistration, key_thing_id, key_thing_registration}
use thing_directory.Errors.{Result, ok}
use thing_directory.Json.{
  Value, text, object, registration, ThingDescription, Fields, end, field, get, put, as_text, Bytes,
}
use thing_directory.Json.Print.{print, is_printable, have_printable, has_json_times}
use thing_directory.Json.Parse.{unmarshal_map}
use thing_directory.Json.RoundTrip.{IsMap, IsJsonMap, plain, plain_fields, plain_map, IsValue}
use thing_directory.Json.Maps.{
  get-put, put-IsMap, get-plain, plain?, unmarshal_map-print, IsJsonMap-IsMap,
}
use thing_directory.LevelDb.{LevelDb}
use thing_directory.Libraries.{Libraries}
use thing_directory.Catalog.Registration.{thing_registration}
use thing_directory.Catalog.Registration.Laws.{thing_registration-plain, reread}
use thing_directory.Catalog.Controller.{registered, stamp, id_or_urn, with_id}
use thing_directory.Catalog.Storage.{LevelDbStorage}
use thing_directory.Catalog.Storage.Crud.{entries}

pub record IsStored (rfc : Rfc3339) (key : String) (bytes : Bytes) : Type 0 where
  pub td : ThingDescription
  pub reads : unmarshal_map bytes ≡ some td
  pub json : IsJsonMap td
  pub identified : get key_thing_id td ≡ some (text key)
  pub registration : ThingRegistration
  pub registered : thing_registration rfc td ≡ ok (some registration)

pub record IsCatalog (rfc : Rfc3339) (L : LevelDb String) (s : LevelDbStorage L) : Type 0 where
  pub each : All (λ e. IsStored rfc e.0 e.1) (entries L s)

printable_member :
    (k : String) (fs : Fields) (v : Value)
    → have_printable fs ≡ true
    → get k fs ≡ some v
    → is_printable v ≡ true
unfolding SortedMap.lookup is_printable
printable_member k end v h e = cc
printable_member k (field j w fs) v h e = ground (arith, printable_member k fs v)

pub text_of : (o : Option Value) (s : String) → as_text o ≡ some s → o ≡ some (text s)
text_of (some (text t)) s e = ground arith
text_of none s e = cc
text_of (some _) s e = cc

-- A new Thing Description has the id under which it is stored.
pub get-with_id :
    (uuid : String) (td : ThingDescription) (o : Option String)
    → as_text (get key_thing_id td) ≡ o
    → get key_thing_id (with_id uuid o td) ≡ some (text (id_or_urn uuid o))
get-with_id uuid td none e = get-put key_thing_id key_thing_id _ td
get-with_id uuid td (some id) e = ground (
  arith,
  get-put key_thing_id key_thing_id (text (id_or_urn uuid (some id))) td,
  text_of (get key_thing_id td) id,
)

pub with_id-IsMap :
    (uuid : String) (td : ThingDescription) (o : Option String)
    → IsMap td
    → IsMap (with_id uuid o td)
with_id-IsMap uuid td none h = put-IsMap key_thing_id _ td h tt
with_id-IsMap uuid td (some id) h =
    ground (arith, put-IsMap key_thing_id (text (id_or_urn uuid (some id))) td h tt)

module _ (rfc : Rfc3339) (created : Option Time) (tr : Option ThingRegistration) (now : Time)
    (td : ThingDescription) where
  pub stamp-IsMap : IsMap td → IsMap (stamp created tr now td)
  unfolding stamp
  stamp-IsMap h = put-IsMap key_thing_registration _ td h tt

  get-stamp :
      get key_thing_registration (stamp created tr now td)
      ≡ some (registration (registered created tr now))
  unfolding stamp
  get-stamp = get-put key_thing_registration key_thing_registration _ td

  pub get_id-stamp : get key_thing_id (stamp created tr now td) ≡ get key_thing_id td
  unfolding stamp
  get_id-stamp = get-put key_thing_registration key_thing_id _ td

  -- The text of a stamped Thing Description meets the invariant of stored entries under the id that
  -- the Thing Description has, if its keys are in order and its times can be printed.
  pub stamp-IsStored :
      (id : String)
      → IsMap td
      → get key_thing_id td ≡ some (text id)
      → is_printable (object (stamp created tr now td)) ≡ true
      → IsStored rfc id (print rfc (object (stamp created tr now td)) [])
  unfolding plain is_printable
  stamp-IsStored id m e p = record {
    td = plain_fields rfc (stamp created tr now td);
    reads = unmarshal_map-print rfc (stamp created tr now td) (stamp-IsMap m);
    json = plain_map rfc (stamp created tr now td) (stamp-IsMap m);
    identified =
        get-plain rfc key_thing_id (stamp created tr now td) ∙ ap (plain? rfc) (get_id-stamp ∙ e);
    registration = reread rfc (registered created tr now);
    registered =
        thing_registration-plain rfc (registered created tr now) (stamp created tr now td)
          (printable_member key_thing_registration (stamp created tr now td) _ p get-stamp)
          get-stamp;
  }
