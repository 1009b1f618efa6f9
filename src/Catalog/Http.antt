-- ===== src/Catalog/Http.antt =====
-- catalog/http.go: the handlers of the HTTP API that touch one Thing Description. A request carries what
-- the handlers read of it, and what they draw: the time and the UUIDs. A panic is passed on to the server.
pub mod Queries
pub mod Invariant
pub mod Steps
pub mod Streams
pub mod Accepted
pub mod RoundTrip
pub mod Creation
pub mod Statuses
pub mod Safe
pub mod Patching
use Prim.Native.String.{◌++◌ as text_append}
use thing_directory.Common.{
  ℕ, suc, ◌+◌, Bool, true, false, not, ◌&&◌, ◌||◌, String, Option, none, some, List, [], ◌∷◌, ◌++◌,
  map, ◌==◌, eqb, if◌then◌else◌, length, is_some,
}
use thing_directory.Common.Order.{text_order}
use thing_directory.Time.{Time, Float64}
use thing_directory.Wot.{
  ValidationIssue, key_thing_id, media_type_json, media_type_json_ld, media_type_thing_description,
}
use thing_directory.Wot.Validation.{validate_against_schemas}
use thing_directory.Errors.{
  Error, not_found, conflict, bad_request, validation, plain, error_text, Result, ok, err, panicked,
  Io, done, fault, io,
}
use thing_directory.Exec.{Exec, pure, raise, lift, continue, ◌>>=◌, ◌>>◌}
use thing_directory.Json.{
  Value, null, boolean, number, text, array, object, ThingDescription, Fields, end, field, get,
  as_text, of_items, of_fields, Token, lbrack, rbrack, comma, Bytes,
}
use thing_directory.Json.Print.{marshal}
use thing_directory.Json.Parse.{unmarshal, unmarshal_map}
use thing_directory.LevelDb.{LevelDb}
use thing_directory.Libraries.{Libraries}
use thing_directory.Catalog.Storage.{max_per_page, joined}
use thing_directory.Catalog.Controller
use thing_directory.Catalog.Controller.{Controller}
use thing_directory.Catalog.Filter
use thing_directory.Catalog.Responses.{
  Response, Body, empty, payload, error_response, validation_error_response, status_ok,
  status_created, status_no_content, status_bad_request, status_not_found, status_conflict,
  status_internal_server_error,
}

pub record Request : Type 0 where
  pub body : Io Bytes
  -- mux.Vars: the id in the path, "" if there is none
  pub id : String
  -- ParseForm's error, and Form.Get
  pub form_error : Option String
  pub form : String → String
  pub uri : String
  pub now : Time
  pub uuid : String
  pub instance_uuid : String

abbrev pub fails : Request → ℕ → String → Response
fails req code msg = error_response req.instance_uuid code msg

abbrev pub plain_response : ℕ → List (String × String) → Response
plain_response status headers = record { status = status; headers = headers; body = empty }

-- The switches on the type of a controller's error.
unfoldable pub add_error : Request → String → Error → Response
add_error req what (conflict m) = fails req status_conflict (text_append what m)
add_error req what (bad_request m) =
    fails req status_bad_request (text_append "Invalid registration:" m)
add_error req what (validation issues) = validation_error_response req.instance_uuid issues
add_error req what e =
    fails req status_internal_server_error
      (text_append "Error creating the registration:" (error_text e))

unfoldable pub update_error : Request → Error → Response
update_error req (bad_request m) =
    fails req status_bad_request (text_append "Invalid registration:" m)
update_error req (validation issues) = validation_error_response req.instance_uuid issues
update_error req e =
    fails req status_internal_server_error
      (text_append "Error updating the registration:" (error_text e))

unfoldable pub patch_error : Request → Error → Response
unfolding update_error
patch_error req (not_found m) = fails req status_not_found (text_append "Invalid registration:" m)
patch_error req e = update_error req e

unfoldable pub lookup_error : Request → String → Error → Response
lookup_error req what (not_found m) = fails req status_not_found m
lookup_error req what e = fails req status_internal_server_error (text_append what (error_text e))

unfoldable pub query_error : Request → Error → Response
query_error req (bad_request m) = fails req status_bad_request m
query_error req e = fails req status_internal_server_error (error_text e)

-- `validateThingDescription` failing is a plain error; a Thing Description is read from the body.
abbrev pub read_body : {A : Type 0} → Request → Io Bytes → (String → A) → (Bytes → A) → A
read_body req (done bytes) failed k = k bytes
read_body req (fault m) failed k = failed m

abbrev pub or_else {ℓ} : {A B : Type ℓ} → Option A → B → (A → B) → B
or_else none b k = b
or_else (some a) b k = k a

abbrev is_null : Option Value → Bool
is_null (some null) = true
is_null _ = false

-- `td[wot.KeyThingID] != nil`
abbrev pub is_nil : Option Value → Bool
is_nil none = true
is_nil (some null) = true
is_nil _ = false

-- The body is `null`, of which json.Unmarshal makes a nil map.
abbrev reads_null : Io Bytes → Bool
reads_null (done bytes) = is_null (unmarshal bytes)
reads_null (fault m) = false

unfoldable pub is_nil_map : Request → Bool
is_nil_map req = reads_null req.body

-- The value of the map that was read: a nil map is printed as null.
abbrev pub sent_map : Request → ThingDescription → Value
sent_map req td = if is_nil_map req then null else object td

abbrev pub is_text : String → Option String → Bool
is_text s none = false
is_text s (some t) = t == s

module _ {S A : Type 0} where
  -- A call, and what the handler does with its error or its value.
  abbrev pub attempt_step :
      Result A → (Error → Exec S Response) → (A → Exec S Response) → Exec S Response
  attempt_step (ok a) on_error k s = k a s
  attempt_step (err e) on_error k s = on_error e s
  attempt_step (panicked m) on_error k s = (panicked m, s)

  abbrev pub attempt :
      Exec S A → (Error → Exec S Response) → (A → Exec S Response) → Exec S Response
  attempt m on_error k s = attempt_step (m s).0 on_error k (m s).1

module _ (lib : Libraries) (L : LevelDb String) (schemas : List lib.Schema) where
  abbrev pub Handler : Type 0
  Handler = Exec (Controller L) Response

  abbrev pub with_body : Request → (ThingDescription → Handler) → Handler
  with_body req k =
      read_body req req.body (λ m. pure (fails req status_bad_request m))
        λ bytes.
          or_else (unmarshal_map bytes)
            (pure (fails req status_bad_request "Error processing the request:")) k

  unfoldable pub post : Request → Handler
  unfolding add_error
  post req = with_body req λ td.
      let id = get key_thing_id td in
      if not (is_nil id) && not (is_text "" (as_text id))
      then pure (
          fails req status_bad_request
            "Registering with user-defined id is not possible using a POST request.")
      else if is_nil_map req
      then lift (panicked "assignment to entry in nil map")
      else attempt (Controller.add lib L schemas td req.now req.uuid)
          (λ e. pure (add_error req "Error creating the resource:" e))
          (λ id. pure (plain_response status_created (("Location", id) ∷ [])))

  -- A Thing Description that is not found is created.
  abbrev pub put_error : Request → ThingDescription → Error → Handler
  put_error req td (not_found m) =
      attempt (Controller.add lib L schemas td req.now req.uuid)
        (λ e. pure (add_error req "Error creating the registration:" e))
        (λ id. pure (plain_response status_created (("Location", id) ∷ [])))
  put_error req td e = pure (update_error req e)

  unfoldable pub put : Request → Handler
  unfolding add_error update_error
  put req = with_body req λ td.
      let id = as_text (get key_thing_id td) in
      if not (is_some id) || is_text "" id
      then pure (
          fails req status_bad_request
            "Registration without id is not possible using a PUT request.")
      else if not (is_text req.id id)
      then pure (fails req status_bad_request "Resource id in path does not match the id in body")
      else attempt (Controller.update lib L schemas req.id td req.now) (put_error req td)
          (λ _. pure (plain_response status_no_content []))

  unfoldable pub patch : Request → Handler
  unfolding patch_error
  patch req = with_body req λ td.
      let id = as_text (get key_thing_id td) in
      if is_text "" id && not (is_text req.id id)
      then pure (fails req status_bad_request "Resource id in path does not match the id in body")
      else attempt (Controller.patch lib L schemas req.id (sent_map req td) req.now)
          (λ e. pure (patch_error req e)) (λ _. pure (plain_response status_no_content []))

  unfoldable pub get_one : Request → Handler
  unfolding lookup_error
  get_one req =
      attempt (Controller.get_td lib L schemas req.id)
        (λ e. pure (lookup_error req "Error retrieving the registration: " e))
        λ td.
          or_else (marshal lib.rfc (object td))
            (pure (fails req status_internal_server_error "json"))
            λ bytes. pure (record {
              status = status_ok;
              headers = ("Content-Type", media_type_thing_description) ∷ [];
              body = payload bytes;
            })

  unfoldable pub delete : Request → Handler
  unfolding lookup_error
  delete req =
      attempt (Controller.delete lib L schemas req.id)
        (λ e. pure (lookup_error req "Error deleting the registration:" e))
        (λ _. pure (plain_response status_no_content []))
