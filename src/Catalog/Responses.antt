-- ===== src/Catalog/Responses.antt =====
-- catalog/errors.go: the responses for errors (RFC 7807 Problem Details).
use Prim.Native.String.{◌++◌ as text_append}
use thing_directory.Common.{ℕ, String, List, [], ◌∷◌, ◌==◌, eqb, if◌then◌else◌}
use thing_directory.Wot.{ValidationIssue, ProblemDetails}
use thing_directory.Json.{Bytes}

pub data Body : Type 0 where
  empty : Body
  problem : ProblemDetails → Body
  payload : Bytes → Body

pub record Response : Type 0 where
  pub status : ℕ
  pub headers : List (String × String)
  pub body : Body

abbrev pub status_ok : ℕ
status_ok = 200

abbrev pub status_created : ℕ
status_created = 201

abbrev pub status_no_content : ℕ
status_no_content = 204

abbrev pub status_bad_request : ℕ
status_bad_request = 400

abbrev pub status_not_found : ℕ
status_not_found = 404

abbrev pub status_conflict : ℕ
status_conflict = 409

abbrev pub status_internal_server_error : ℕ
status_internal_server_error = 500

-- http.StatusText, of the statuses that the package responds with.
status_text : ℕ → String
status_text code =
    if eqb code 400
    then "Bad Request"
    else if eqb code 404
    then "Not Found"
    else if eqb code 409
    then "Conflict"
    else if eqb code 500
    then "Internal Server Error"
    else ""

-- The title is filled in; `uuid` is drawn for the instance.
unfoldable pub problem_details_response : String → ProblemDetails → Response
unfolding status_text
problem_details_response uuid pd =
    let title = if pd.title == "" then status_text pd.status else pd.title in
    record {
      status = pd.status;
      headers = ("Content-Type", "application/problem+json") ∷ [];
      body = problem (record pd { title = title; instance_uri = text_append "/errors/" uuid });
    }

unfoldable pub error_response : String → ℕ → String → Response
unfolding problem_details_response
error_response uuid code msg =
    problem_details_response uuid (record {
      title = "";
      status = code;
      detail = msg;
      instance_uri = "";
      validation_errors = [];
    })

unfoldable pub validation_error_response : String → List ValidationIssue → Response
unfolding problem_details_response
validation_error_response uuid issues = problem_details_response uuid (record {
  title = "";
  status = status_bad_request;
  detail = "The input did not pass the JSON Schema validation";
  instance_uri = "";
  validation_errors = issues;
})
