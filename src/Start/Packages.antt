-- ===== src/Start/Packages.antt =====
-- The packages that the start of the directory calls and does not contain, as parameters: net/url, files,
-- environment variables (kelseyhightower/envconfig), authentication (linksmart/go-sec), the network
-- interfaces, DNS-SD (grandcat/zeroconf) and the client of the service catalog.
use thing_directory.Common.{ℕ, Bool, String, Option, List}
use thing_directory.Errors.{Io}

-- Go's int
pub data ℤ : Type 0 where
  pos : ℕ → ℤ
  negsuc : ℕ → ℤ

-- What the directory tells of itself: service-catalog's Service, with its one API.
pub record Service : Type 0 where
  pub id : String
  pub type : String
  pub title : String
  pub description : String
  pub api_id : String
  pub api_title : String
  pub protocol : String
  pub url : String
  pub media_type : String
  pub spec : String
  pub api_version : String
  pub doc : String
  -- a uint32
  pub ttl : ℕ

pub record Packages : Type 1 where
  -- url.Parse, of which only the error is read
  pub url_error : String → Option String
  -- validator.Conf and obtainer.Conf: `Enabled`, and the error of `Validate`
  pub ValidatorConf : Type 0
  pub validator_enabled : ValidatorConf → Bool
  pub validator_error : ValidatorConf → Option String
  -- the error of validator.Setup
  pub setup_validator : ValidatorConf → Option String
  pub ObtainerConf : Type 0
  pub obtainer_enabled : ObtainerConf → Bool
  pub obtainer_error : ObtainerConf → Option String
  -- obtainer.NewClient of the provider, its URL, the user name, the password and the client's id
  pub Ticket : Type 0
  pub new_ticket_client : ObtainerConf → Io Ticket
  -- client.RegisterServiceAndKeepalive at an endpoint: how to stop it
  pub Registrator : Type 0
  pub register_service : String → Service → Option Ticket → Io Registrator
  -- net.InterfaceByName
  pub Interface : Type 0
  pub interface_by_name : String → Io Interface
  -- net.Listen at an address and a port: its error
  pub listen_error : String → ℤ → Option String
  pub is_multicast : Interface → Bool
  -- zeroconf.Register of an instance, a type, a domain, a port, texts and interfaces
  pub Server : Type 0
  pub register_dnssd : String → String → String → ℤ → List String → List Interface → Io Server
