-- ===== src/Notification/Controller/Updates.antt =====
-- What an update event holds: a merge patch (RFC 7396), by which a subscriber that has the old Thing
-- Description gets the new one.
use thing_directory.Common.{
  ◌≡◌, refl, ap, ◌∙◌, sym, true, false, String, Option, none, some, inl, inr, ◌==◌, if◌then◌else◌,
  Bool-cases, eq_iff, [],
}
use mathlib.Core.Path.{subst}
use thing_directory.Common.Order.{text_order}
use thing_directory.Wot.{key_thing_id, event_type_update}
use thing_directory.Errors.{ok, done}
use thing_directory.Json.{
  Value, null, text, object, ThingDescription, Fields, end, field, get, put, Bytes,
}
use thing_directory.Json.Print.{print, marshal, is_printable}
use thing_directory.Json.Parse.{unmarshal_map}
use thing_directory.Json.RoundTrip.{plain, plain_fields}
use thing_directory.Json.Maps.{get-put, get-plain, plain?}
use thing_directory.Libraries.{Libraries}
use thing_directory.Notification.Queue.{Event}
use thing_directory.Notification.Controller.{update_event, thing_id}

remove : String → Fields → Fields
remove k end = end
remove k (field j v fs) = if j == k then fs else field j v (remove k fs)

abbrev members_of : Option Value → Fields
members_of (some (object fs)) = fs
members_of _ = end

-- The function MergePatch of RFC 7396.
unfoldable mutual
  unfolding remove

  pub merge_value : Option Value → Value → Value
  merge_value target (object patch) = object (merge_fields (members_of target) patch)
  merge_value target v = v

  pub merge_fields : Fields → Fields → Fields
  merge_fields target end = target
  merge_fields target (field k null patch) = merge_fields (remove k target) patch
  merge_fields target (field k v patch) =
      merge_fields (put k (merge_value (get k target) v) target) patch

-- One member of the merged object, from that of the target and that of the patch.
abbrev pub merge_member : Option Value → Option Value → Option Value
merge_member target none = target
merge_member target (some null) = none
merge_member target (some v) = some (merge_value target v)

module _ (lib : Libraries) (old new : ThingDescription) where
  -- What the library's merge patch is for.
  abbrev pub Leads : ThingDescription → Type 0
  Leads content =
      (k : String)
      → merge_member (get k (plain_fields lib.rfc old)) (get k content)
        ≡ get k (plain_fields lib.rfc new)

  put_id :
      (td : ThingDescription) (id : String)
      → get key_thing_id old ≡ some (text id)
      → get key_thing_id (put key_thing_id (thing_id old) td) ≡ some (text id)
  put_id td id was =
      get-put key_thing_id key_thing_id (thing_id old) td
      ∙ ap (λ o. some (elim o [ none ↦ null | some v ↦ v ])) was

  id_kept :
      (id : String) (content : ThingDescription)
      → get key_thing_id content ≡ some (text id)
      → get key_thing_id new ≡ some (text id)
      → merge_member (get key_thing_id (plain_fields lib.rfc old)) (get key_thing_id content)
        ≡ get key_thing_id (plain_fields lib.rfc new)
  unfolding merge_value plain
  id_kept id content named is =
      ap (merge_member (get key_thing_id (plain_fields lib.rfc old))) named
      ∙ sym (get-plain lib.rfc key_thing_id new ∙ ap (plain? lib.rfc) is)

  named-Leads :
      (td : ThingDescription) (id : String)
      → get key_thing_id old ≡ some (text id)
      → get key_thing_id new ≡ some (text id)
      → Leads td
      → Leads (put key_thing_id (thing_id old) td)
  unfolding plain
  named-Leads td id was is leads k = elim (Bool-cases (key_thing_id == k)) [
    | inl same ↦
        subst
          (λ j.
            merge_member (get j (plain_fields lib.rfc old))
              (get j (put key_thing_id (thing_id old) td))
            ≡ get j (plain_fields lib.rfc new))
          ((eq_iff key_thing_id k).0 same)
          (id_kept id (put key_thing_id (thing_id old) td) (put_id td id was) is)
    | inr other ↦ rw (get-put key_thing_id k (thing_id old) td, other) (leads k)
  ]

  -- If an old and a new Thing Description are JSON and have the same id, the library makes a merge
  -- patch of their texts, and this is a JSON object that leads from the old to the new one (RFC
  -- 7396), then there is an update event for them, of the type `update`; its content has the id,
  -- and every other member just as the patch has it; and it leads from the old Thing Description to
  -- the new one.
  pub update_event-Leads :
      (patch : Bytes) (td : ThingDescription) (id : String)
      → is_printable (object old) ≡ true
      → is_printable (object new) ≡ true
      → lib.create_merge_patch (print lib.rfc (object old) []) (print lib.rfc (object new) [])
        ≡ done patch
      → unmarshal_map patch ≡ some td
      → Leads td
      → get key_thing_id old ≡ some (text id)
      → get key_thing_id new ≡ some (text id)
      → (e : Event) × (update_event lib old new ≡ ok e)
        × (e.type ≡ event_type_update)
        × (get key_thing_id e.content ≡ some (text id))
        × ((k : String) → (key_thing_id == k) ≡ false → get k e.content ≡ get k td)
        × Leads e.content
  unfolding update_event marshal
  update_event-Leads patch td id p q creates reads leads was is = (
    record { id = ""; type = event_type_update; content = put key_thing_id (thing_id old) td },
    rw (p, q, creates, reads) refl,
    refl,
    put_id td id was,
    λ k other. rw (get-put key_thing_id k (thing_id old) td, other) refl,
    named-Leads td id was is leads,
  )
