-- ===== src/Start/Pages.antt =====
-- The handlers of router.go, init.go, and the text constants of main.go. Templates, the request for the
-- specification and the log are libraries' or I/O.
use Prim.Native.Char.{code}
use Prim.Native.String.{◌++◌ as text_append}
use thing_directory.Common.{
  ℕ, ◌+◌, Bool, false, ◌||◌, String, Option, none, some, ◌==◌, eqb, if◌then◌else◌, ◌≡◌, refl,
}
use thing_directory.Errors.{Io, done, fault}

abbrev pub spec_before_version : String
spec_before_version = "https://raw.githubusercontent.com/linksmart/thing-directory/"

abbrev pub spec_after_version : String
spec_after_version = "/apidoc/openapi-spec.yml"

abbrev pub source_code_repo : String
source_code_repo = "https://github.com/linksmart/thing-directory"

abbrev pub swagger_ui_scheme_less : String
swagger_ui_scheme_less = "linksmart.github.io/swagger-ui/dist"

-- `Version` is empty in a build that does not set it.
unfoldable pub version_or_master : String → String
version_or_master version = if version == "" then "master" else version

unfoldable pub spec_url : String → String
unfolding version_or_master
spec_url version =
    text_append spec_before_version (text_append (version_or_master version) spec_after_version)

-- What the template of the index page is given.
pub record IndexData : Type 0 where
  pub version : String
  pub source_repo : String
  pub spec : String
  pub swagger_ui_relative_scheme : String
  pub swagger_ui_secure : String

unfoldable pub index_handler : String → IndexData
unfolding spec_url
index_handler version = record {
  version = version_or_master version;
  source_repo = source_code_repo;
  spec = spec_url version;
  swagger_ui_relative_scheme = text_append "//" swagger_ui_scheme_less;
  swagger_ui_secure = text_append "https:" (text_append "//" swagger_ui_scheme_less);
}

-- strings.TrimSuffix and strings.HasPrefix of a slash
unfoldable pub trim_slash : String → String
trim_slash String.[] = String.[]
trim_slash (String.◌∷◌ x String.[]) =
    if eqb (code x) b'/' then String.[] else String.◌∷◌ x String.[]
trim_slash (String.◌∷◌ x (String.◌∷◌ y s)) = String.◌∷◌ x (trim_slash (String.◌∷◌ y s))

unfoldable pub has_slash : String → Bool
has_slash String.[] = false
has_slash (String.◌∷◌ x s) = eqb (code x) b'/'

unfoldable pub base_path : String → String
unfolding trim_slash has_slash
base_path path =
    let trimmed = trim_slash path in if has_slash trimmed then trimmed else text_append "/" trimmed

-- The answer to the request for the specification: its status, the text of that, and the body as far as
-- it could be copied, with the error that ended it.
pub record SpecAnswer : Type 0 where
  pub status : ℕ
  pub status_text : String
  pub body : String
  pub copy_error : Option String

pub record Page : Type 0 where
  pub status : ℕ
  pub body : String

-- A status that is written behind a part of the body is not sent.
abbrev copied : String → SpecAnswer → Option String → Page
copied path a (some m) = record {
  status = if a.body == "" then 500 else 200;
  body = text_append a.body (text_append "Error responding Open API specs: " m);
}
copied path a none = record {
  status = 200;
  body =
      if path == ""
      then a.body
      else text_append a.body (text_append "\nservers: [url: " (text_append (base_path path) "]"));
}

unfoldable pub api_spec_proxy : String → String → Io SpecAnswer → Page
unfolding spec_url base_path
api_spec_proxy version path (fault m) = record {
  status = 500;
  body = text_append "Error querying Open API specs: " m;
}
api_spec_proxy version path (done a) =
    if eqb a.status 200 then copied path a a.copy_error else record {
      status = a.status;
      body = text_append "GET " (text_append (spec_url version) (text_append ": " a.status_text));
    }

base_path_test : base_path "linksmart/td/" ≡ "/linksmart/td"
unfolding base_path
base_path_test = refl

unfoldable pub eval_env : (String → String) → String → Bool
eval_env getenv key = getenv key == "1" || (getenv key == "true" || getenv key == "TRUE")

-- log.LstdFlags, and log.Lshortfile, which is another bit
unfoldable pub log_flags : (String → String) → ℕ
unfolding eval_env
log_flags getenv =
    let flags = if eval_env getenv "DISABLE_LOG_TIME" then 0 else 3 in
    if eval_env getenv "VERBOSE" then flags + 16 else flags
