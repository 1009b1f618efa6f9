-- ===== src/Catalog/Controller/Specification.antt =====
-- The directory as its users see it, a map from ids to Thing Descriptions, and the effect of each call of
-- catalog/controller.go on it.
use thing_directory.Common.{
  ◌≡◌, ◌≢◌, Bool, true, false, String, Option, some, List, [], ◌∷◌, ◌==◌, if◌then◌else◌,
}
use thing_directory.Common.Order.{text_order}
use thing_directory.Time.{Time}
use thing_directory.Wot.{ThingRegistration, key_thing_id}
use thing_directory.Errors.{Result, ok, err, done}
use thing_directory.Json.{Value, ThingDescription, get, as_text, object, Bytes}
use thing_directory.Json.RoundTrip.{IsMap, plain_fields}
use thing_directory.Json.Print.{marshal, is_printable}
use thing_directory.Wot.Validation.{validate_against_schemas}
use thing_directory.Json.Parse.{unmarshal_map}
use thing_directory.Libraries.{Libraries}
use thing_directory.Catalog.Registration.{thing_registration}
use thing_directory.Catalog.Storage.{not_found_error}
use thing_directory.Catalog.Controller.{with_id, id_or_urn}
use thing_directory.Catalog.Controller.Stamping.{promised}

-- A call, with what it reads from the clock and draws.
pub data Call : Type 0 where
  adding : ThingDescription → Time → String → Call
  updating : String → ThingDescription → Time → Call
  patching : String → Value → Time → Call
  removing : String → Call

abbrev pub IsCall : Call → Type 0
IsCall (adding td now uuid) = IsMap td
IsCall (updating id td now) = IsMap td
IsCall (patching id td now) = Unit
IsCall (removing id) = Unit

-- What is found under each id.
abbrev pub View : Type 0
View = String → Result ThingDescription

-- The id of a new Thing Description, and the Thing Description with it.
abbrev pub new_id : String → ThingDescription → String
new_id uuid td = id_or_urn uuid (as_text (get key_thing_id td))

abbrev pub named : String → ThingDescription → ThingDescription
named uuid td = with_id uuid (as_text (get key_thing_id td)) td

module _ (lib : Libraries) where
  -- The merge patch of the text of a Thing Description is the text of another.
  abbrev pub Patches : ThingDescription → Value → ThingDescription → Type 0
  Patches old sent merged =
      (old_text : Bytes) × (patch_text : Bytes) × (new_text : Bytes) × (marshal lib.rfc (object old)
        ≡ some old_text)
      × (marshal lib.rfc sent ≡ some patch_text)
      × (lib.merge_patch old_text patch_text ≡ done new_text)
      × (unmarshal_map new_text ≡ some merged)

module _ (lib : Libraries) (schemas : List lib.Schema) where
  -- A Thing Description that can be stored with this registration under a creation time.
  pub record IsAcceptable (created : Option Time) (now : Time) (td : ThingDescription)
      : Type 0 where
    pub tr : Option ThingRegistration
    pub valid : validate_against_schemas lib td schemas ≡ ok []
    pub readable : thing_registration lib.rfc td ≡ ok tr
    pub printable : is_printable (object (promised created tr now td)) ≡ true

  -- What holds of the map before a call that does not return.
  abbrev pub Refuses : Call → View → Type 0
  Refuses (adding td now uuid) before =
      (new_id uuid td == "") ≡ false
      → IsAcceptable (some now) now (named uuid td)
      → before (new_id uuid td) ≢ err (not_found_error (new_id uuid td))
  Refuses (updating id td now) before =
      (old : ThingDescription) (was : ThingRegistration)
      → thing_registration lib.rfc old ≡ ok (some was)
      → IsAcceptable was.created now td
      → before id ≢ ok old
  Refuses (patching id sent now) before = Unit
  Refuses (removing id) before = (old : ThingDescription) → before id ≢ ok old

  -- The effect on the map of a call that returns, or does not.
  abbrev pub Specified : Call → Bool → View → View → Type 0
  Specified call false before after = Refuses call before × ((j : String) → after j ≡ before j)
  Specified (adding td now uuid) true before after =
      (tr : Option ThingRegistration) × (thing_registration lib.rfc (named uuid td) ≡ ok tr)
      × (before (new_id uuid td) ≡ err (not_found_error (new_id uuid td)))
      × (after (new_id uuid td)
          ≡ ok (plain_fields lib.rfc (promised (some now) tr now (named uuid td))))
      × ((j : String) → (new_id uuid td == j) ≡ false → after j ≡ before j)
  Specified (updating id td now) true before after =
      (old : ThingDescription) × (was : ThingRegistration) × (tr : Option ThingRegistration)
      × (before id ≡ ok old)
      × (thing_registration lib.rfc old ≡ ok (some was))
      × (thing_registration lib.rfc td ≡ ok tr)
      × (after id ≡ ok (plain_fields lib.rfc (promised was.created tr now td)))
      × ((j : String) → (id == j) ≡ false → after j ≡ before j)
  Specified (patching id sent now) true before after =
      (old : ThingDescription) × (merged : ThingDescription) × (was : ThingRegistration)
      × (tr : Option ThingRegistration) × Patches lib old sent merged
      × (before id ≡ ok old)
      × (thing_registration lib.rfc old ≡ ok (some was))
      × (thing_registration lib.rfc merged ≡ ok tr)
      × (after id ≡ ok (plain_fields lib.rfc (promised was.created tr now merged)))
      × ((j : String) → (id == j) ≡ false → after j ≡ before j)
  Specified (removing id) true before after =
      (j : String) → after j ≡ (if id == j then err (not_found_error j) else before j)

  -- The calls, with whether each returns, lead from a map to another.
  abbrev pub Runs : List Call → List Bool → View → View → Type 0
  Runs [] [] before after = (j : String) → after j ≡ before j
  Runs (call ∷ calls) (returned ∷ replies) before after =
      (between : View) × Specified call returned before between × Runs calls replies between after
  Runs _ _ before after = ⊥
