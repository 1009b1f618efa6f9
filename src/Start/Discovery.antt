-- ===== src/Start/Discovery.antt =====
-- discovery.go: the announcement of the directory by DNS-SD and in a service catalog. `version` is the
-- variable that the build sets.
pub mod Escape
use Prim.Native.Char.{code}
use Prim.Native.String.{◌++◌ as text_append}
use thing_directory.Common.{
  ℕ, ◌-◌, ◌%◌, ◌^◌, String, Option, none, some, List, [], ◌∷◌, if◌then◌else◌, eqb, ◌≡◌, refl,
}
use thing_directory.Wot.{dnssd_service_type, dnssd_service_subtype_directory}
use thing_directory.Errors.{
  Error, plain, error_text, Result, ok, err, panicked, Io, done, fault, ◌>>=◌,
}
use thing_directory.Start.Packages.{Packages, ℤ, pos, negsuc, Service}
use thing_directory.Start.Config.{Config}

-- A text in front of another one.
abbrev pub before : String → String → String
before String.[] t = t
before (String.◌∷◌ x s) t = String.◌∷◌ x (before s t)

-- strings.ReplaceAll of a character of one byte, given as its code
unfoldable pub replace_all : ℕ → String → String → String
replace_all c by String.[] = String.[]
replace_all c by (String.◌∷◌ x s) =
    let rest = replace_all c by s in if eqb (code x) c then before by rest else String.◌∷◌ x rest

unfoldable pub escape_dnssd_service_instance : String → String
unfolding replace_all
escape_dnssd_service_instance s = replace_all b'.' "\\." (replace_all b'\\' "\\\\" s)

escape_test : escape_dnssd_service_instance "a.b\\c" ≡ "a\\.b\\\\c"
unfolding escape_dnssd_service_instance
escape_test = refl

-- uint32(i)
unfoldable pub uint32_of : ℤ → ℕ
uint32_of (pos n) = n % 2 ^ 32
uint32_of (negsuc n) = 2 ^ 32 - 1 - n % 2 ^ 32

module _ (p : Packages) where
  -- What is returned to end the announcement: nil, or the method of a server, which is nil itself if
  -- there was an error.
  pub data Shutdown : Type 0 where
    no_function : Shutdown
    shutdown_of : Option p.Server → Shutdown

  unfoldable pub interfaces_named : List String → Result (List p.Interface)
  interfaces_named [] = ok []
  interfaces_named (name ∷ names) = elim (p.interface_by_name name) [
    | fault m ↦
        err (plain (text_append "error finding interface " (text_append name (text_append ": " m))))
    | done i ↦
        let more = interfaces_named names >>= λ is. ok (i ∷ is) in
        if p.is_multicast i
        then more
        else err (plain (text_append "interface " (text_append name " does not support multicast")))
  ]

  abbrev announced : Io p.Server → Shutdown × Option Error
  announced (fault m) = (shutdown_of none, some (plain m))
  announced (done server) = (shutdown_of (some server), none)

  unfoldable pub register_dnssd_service : String → Config p → Shutdown × Option Error
  unfolding interfaces_named
  register_dnssd_service version c = elim (interfaces_named c.dnssd.interfaces) [
    | err e ↦ (no_function, some e)
    | panicked m ↦ (no_function, some (plain m))
    | ok is ↦ announced (
        p.register_dnssd (escape_dnssd_service_instance c.dnssd.instance_name)
          (text_append dnssd_service_type (text_append "," dnssd_service_subtype_directory))
          c.dnssd.domain c.http.bind_port ("td=/td" ∷ text_append "version=" version ∷ []) is)
  ]

  unfoldable pub service_of : String → Config p → Service
  unfolding uint32_of
  service_of version c = record {
    id = c.service_id;
    type = "_linksmart-td._tcp";
    title = "LinkSmart Thing Directory";
    description = c.description;
    api_id = "things";
    api_title = "Thing Directory API";
    protocol = "HTTP";
    url = c.http.public_endpoint;
    media_type = "application/vnd.oai.swagger;version=3.0.0";
    spec =
        "https://raw.githubusercontent.com/linksmart/thing-directory/master/apidoc/openapi-spec.yml";
    api_version = version;
    doc = "https://github.com/linksmart/thing-directory";
    ttl = uint32_of c.service_catalog.ttl;
  }

  abbrev or_error {ℓ} : {A : Type ℓ} → String → Io A → Result A
  or_error m (done a) = ok a
  or_error m (fault e) = err (plain (text_append m e))

  abbrev ticket : Config p → Result (Option p.Ticket)
  ticket c =
      if p.obtainer_enabled c.service_catalog.auth
      then (or_error "error creating auth client: " (p.new_ticket_client c.service_catalog.auth)
          >>= λ t. ok (some t))
      else ok none

  unfoldable pub register_in_service_catalog : String → Config p → Result p.Registrator
  unfolding service_of
  register_in_service_catalog version c = do
    client ← ticket c
    or_error "error registering service: "
        (p.register_service c.service_catalog.endpoint (service_of version c) client)
