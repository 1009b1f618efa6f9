-- ===== src/Catalog/Http/Accepted.antt =====
-- What a handler that writes has done if it answers 201 or 204, and how GET answers for what it has
-- stored.
use thing_directory.Common.{
  ◌≡◌, refl, sym, ◌⊎◌, inl, inr, true, String, Option, List, [], ◌∷◌, arith, Option-cases,
}
use mathlib.Core.Path.{subst}
use thing_directory.Common.Order.{text_order}
use thing_directory.Time.{Time}
use thing_directory.Wot.{ThingRegistration, media_type_thing_description}
use thing_directory.Errors.{
  Error, not_found, conflict, bad_request, validation, plain, Result, ok, err, panicked, Io, done,
  fault,
}
use thing_directory.Exec.{Exec}
use thing_directory.Json.{ThingDescription, object, Bytes}
use thing_directory.Json.Print.{print, marshal, is_printable}
use thing_directory.Json.Parse.{unmarshal_map}
use thing_directory.Json.RoundTrip.{
  IsMap, plain as plain_value, plain_fields, plain_map, print-plain,
}
use thing_directory.LevelDb.{LevelDb, IsFaultless}
use thing_directory.Libraries.{Libraries}
use thing_directory.Catalog.Controller.{Controller}
use thing_directory.Catalog.Controller.RoundTrip.{gets}
use thing_directory.Catalog.Controller.Stamping.{promised, stamp-promised}
use thing_directory.Catalog.Stored.{stamp-IsMap}
use thing_directory.Catalog.Responses.{
  Response, payload, error_response, validation_error_response, problem_details_response, status_ok,
  status_created, status_no_content,
}
use thing_directory.Catalog.Http.{
  Request, get_one, with_body, attempt, attempt_step, Handler, add_error, update_error, fails,
}
use thing_directory.Catalog.Http.Invariant.{Sends}
use thing_directory.Catalog.Http.Statuses.{IsJsonMap-have_printable}

-- 201 or 204
abbrev pub IsAccepted : Response → Type 0
IsAccepted r = (r.status ≡ status_created) ⊎ (r.status ≡ status_no_content)

pub add_error-refused :
    (req : Request) (what : String) (e : Error) → IsAccepted (add_error req what e) → ⊥
unfolding add_error error_response validation_error_response problem_details_response
add_error-refused req what (not_found m) h = ground arith
add_error-refused req what (conflict m) h = ground arith
add_error-refused req what (bad_request m) h = ground arith
add_error-refused req what (validation issues) h = ground arith
add_error-refused req what (plain m) h = ground arith

pub update_error-refused : (req : Request) (e : Error) → IsAccepted (update_error req e) → ⊥
unfolding update_error error_response validation_error_response problem_details_response
update_error-refused req (not_found m) h = ground arith
update_error-refused req (conflict m) h = ground arith
update_error-refused req (bad_request m) h = ground arith
update_error-refused req (validation issues) h = ground arith
update_error-refused req (plain m) h = ground arith

pub fails-refused : (req : Request) (m : String) → IsAccepted (fails req 400 m) → ⊥
unfolding error_response problem_details_response
fails-refused req m h = ground arith

ok-injective : (a b : Response) → Path (Result Response) (ok a) (ok b) → a ≡ b
ok-injective a b e = cc

-- If the request was accepted, its answer and the state behind it have a property.
module _ (lib : Libraries) (L : LevelDb String) (schemas : List lib.Schema)
    (Q : Response → Controller L → Type 0) where
  abbrev pub Accepts : Result Response × Controller L → Type 0
  Accepts (r, d) = (a : Response) → r ≡ ok a → IsAccepted a → Q a d

  pub refuses : (a : Response) (d : Controller L) → (IsAccepted a → ⊥) → Accepts (ok a, d)
  refuses a d no_accept b e h = absurd (no_accept (subst IsAccepted (sym (ok-injective a b e)) h))

  pub accepts : (a : Response) (d : Controller L) → Q a d → Accepts (ok a, d)
  accepts a d q b e h = subst (λ x. Q x d) (ok-injective a b e) q

  pub attempt-Accepts :
      {A : Type 0} (m : Exec (Controller L) A) (on_error : Error → Handler lib L schemas)
      (k : A → Handler lib L schemas) (c : Controller L)
      → ((e : Error) → Accepts (on_error e (m c).1))
      → ((a : A) → (m c).0 ≡ ok a → Accepts (k a (m c).1))
      → Accepts (attempt m on_error k c)
  attempt-Accepts m on_error k c on_err on_ok = go (m c).0 refl
    where
      go : (r : Result _) → (m c).0 ≡ r → Accepts (attempt_step r on_error k (m c).1)
      go (ok a) e = on_ok a e
      go (err x) e = on_err x
      go (panicked p) e = λ a h. absurd (cc)

  pub with_body-Accepts :
      (req : Request) (k : ThingDescription → Handler lib L schemas) (c : Controller L)
      → ((td : ThingDescription) → Sends lib L schemas req td → Accepts (k td c))
      → Accepts (with_body lib L schemas req k c)
  with_body-Accepts req k c each = go req.body refl
    where
      go :
          (b : Io Bytes)
          → req.body ≡ b
          → Accepts (with_body lib L schemas (record req { body = b }) k c)
      go (fault m) b = refuses (fails req 400 m) c (fails-refused req m)
      go (done bytes) b = elim (Option-cases (unmarshal_map bytes)) [
        | inl e ↦ rw e (refuses _ c (fails-refused req "Error processing the request:"))
        | inr (td, e) ↦ rw e (each td (bytes, b, e))
      ]

module _ (lib : Libraries) (L : LevelDb String) (sure : IsFaultless L)
    (schemas : List lib.Schema) where
  -- The answer that holds a Thing Description, stamped.
  abbrev pub answer : Option Time → Option ThingRegistration → Time → ThingDescription → Response
  answer created tr now td = record {
    status = status_ok;
    headers = ("Content-Type", media_type_thing_description) ∷ [];
    body = payload (print lib.rfc (object (promised created tr now td)) []);
  }

  -- GET of what is stored, stamped, answers its text.
  pub get_one-stamped :
      (ask : Request) (id : String) (now : Time) (td : ThingDescription) (d : Controller L)
      → IsMap td
      → ask.id ≡ id
      → (created : Option Time) (tr : Option ThingRegistration)
      → gets lib L sure schemas id d ≡ ok (plain_fields lib.rfc (promised created tr now td))
      → (get_one lib L schemas ask d).0 ≡ ok (answer created tr now td)
  unfolding get_one marshal plain_value
  get_one-stamped ask id now td d m same created sent shows =
      let stamped = promised created sent now td in
      let n : IsMap stamped =
        subst IsMap (stamp-promised created sent now td)
          (stamp-IsMap lib.rfc created sent now td m) in
      let printable : is_printable (object (plain_fields lib.rfc stamped)) ≡ true =
        unfold is_printable in
        IsJsonMap-have_printable (plain_fields lib.rfc stamped) (plain_map lib.rfc stamped n) in
      rw (same, shows, printable, print-plain lib.rfc (object stamped) []) refl
