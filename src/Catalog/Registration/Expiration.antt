-- ===== src/Catalog/Registration/Expiration.antt =====
-- When a stored Thing Description has expired, read from its text and apart from the code.
use thing_directory.Common.{◌≡◌, ◌<◌, refl, inl, inr, String, Option, none, some, arith}
use thing_directory.Common.Order.{text_order}
use thing_directory.Time.{Time, Rfc3339}
use thing_directory.Wot.{ThingRegistration, key_created, key_modified, key_expires}
use thing_directory.Errors.{Result, ok, ◌>>=◌, Result-cases}
use thing_directory.Json.{Value, text, object, ThingDescription, Fields, get, as_text, Bytes}
use thing_directory.Json.Parse.{unmarshal_map}
use thing_directory.Catalog.Registration.{
  parsed_time, parsed_registration, thing_registration, of_member,
}

module _ (rfc : Rfc3339) where
  -- The text has a registration whose `expires` is a time before t.
  pub record HasExpired (t : Time) (bytes : Bytes) : Type 0 where
    pub td : ThingDescription
    pub members : Fields
    pub written : String
    pub expires : Time
    pub reads : unmarshal_map bytes ≡ some td
    pub registered : get "registration" td ≡ some (object members)
    pub member : get "expires" members ≡ some (text written)
    pub parses : rfc.parse written ≡ some expires
    pub over : expires < t

  text_of : (v : Option Value) (s : String) → as_text v ≡ some s → v ≡ some (text s)
  text_of none s h = cc
  text_of (some (text r)) s h = cc
  text_of (some _) s h = cc

  -- A time that is read comes from a text, and a text gives its time.
  time-written :
      (o : Option String) (t : Time)
      → parsed_time rfc o ≡ ok (some t)
      → (s : String) × (o ≡ some s) × (rfc.parse s ≡ some t)
  unfolding parsed_time
  time-written none t h = absurd (ground arith)
  time-written (some s) t h = (s, refl, go (rfc.parse s) h)
    where
      go :
          (r : Option Time)
          → (elim r [ none ↦ Result.panicked "cannot parse time" | some u ↦ ok (some u) ])
            ≡ ok (some t)
          → r ≡ some t
      go none h = absurd (ground arith)
      go (some u) h = ground arith

  module _ (members : Fields) (r : ThingRegistration) where
    parsed_expires :
        parsed_registration rfc members ≡ ok r
        → parsed_time rfc (as_text (get key_expires members)) ≡ ok r.expires
    unfolding parsed_registration
    parsed_expires h = elim (Result-cases (parsed_time rfc (as_text (get key_created members)))) [
      | inr fails ↦ absurd (ground arith)
      | inl (c, created) ↦
          elim (Result-cases (parsed_time rfc (as_text (get key_modified members)))) [
            | inr fails ↦ absurd (ground arith)
            | inl (m, modified) ↦
                elim (Result-cases (parsed_time rfc (as_text (get key_expires members)))) [
                  | inr fails ↦ absurd (ground arith)
                  | inl (e, expires) ↦ ground arith
                ]
          ]
    ]

    written_expires :
        (s : String) (e : Time)
        → parsed_registration rfc members ≡ ok r
        → get "expires" members ≡ some (text s)
        → rfc.parse s ≡ some e
        → r.expires ≡ some e
    unfolding parsed_time
    written_expires s e h m p = ground (arith, parsed_expires h, m, p)

  bound :
      (r : ThingRegistration) (p : Result ThingRegistration)
      → (p >>= λ q. ok (some q)) ≡ ok (some r)
      → p ≡ ok r
  bound r (ok q) h = ground arith
  bound r (Result.err e) h = absurd (ground arith)
  bound r (Result.panicked m) h = absurd (ground arith)

  -- The registration that is read of a Thing Description is that of its member.
  parsed-member :
      (td : ThingDescription) (r : ThingRegistration)
      → thing_registration rfc td ≡ ok (some r)
      → (members : Fields) × (get "registration" td ≡ some (object members))
        × (parsed_registration rfc members ≡ ok r)
  unfolding thing_registration
  parsed-member td r h = go (get "registration" td) h
    where
      go :
          (v : Option Value)
          → of_member rfc v ≡ ok (some r)
          → (members : Fields) × (v ≡ some (object members))
            × (parsed_registration rfc members ≡ ok r)
      go (some (object members)) h = (members, refl, bound r (parsed_registration rfc members) h)
      go none h = absurd (ground arith)
      go (some _) h = absurd (ground arith)

  object-injective : (a b : Fields) → some (object a) ≡ some (object b) → a ≡ b
  object-injective a b h = cc

  -- What has expired, has a registration whose time is read so.
  pub expires-HasExpired :
      (t : Time) (bytes : Bytes) (td : ThingDescription) (r : ThingRegistration)
      → unmarshal_map bytes ≡ some td
      → thing_registration rfc td ≡ ok (some r)
      → HasExpired t bytes
      → (e : Time) × (r.expires ≡ some e) × (e < t)
  expires-HasExpired t bytes td r reads registered x =
      let (members, here, parsed) = parsed-member td r registered in
      let same_td : td ≡ x.td = cc (reads, x.reads) in
      let same : members ≡ x.members =
        object-injective members x.members (cc (here, x.registered, same_td)) in
      (
        x.expires,
        written_expires members r x.written x.expires parsed (rw same x.member) x.parses,
        x.over,
      )

  pub HasExpired-expires :
      (t : Time) (bytes : Bytes) (td : ThingDescription) (r : ThingRegistration) (e : Time)
      → unmarshal_map bytes ≡ some td
      → thing_registration rfc td ≡ ok (some r)
      → r.expires ≡ some e
      → e < t
      → HasExpired t bytes
  HasExpired-expires t bytes td r e reads registered ends before =
      let (members, here, parsed) = parsed-member td r registered in
      let (s, is_written, p) =
        time-written (as_text (get key_expires members)) e
          (rw (← ends) (parsed_expires members r parsed)) in
      record {
        td = td;
        members = members;
        written = s;
        expires = e;
        reads = reads;
        registered = here;
        member = text_of (get key_expires members) s is_written;
        parses = p;
        over = before;
      }
