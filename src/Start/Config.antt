-- ===== src/Start/Config.antt =====
-- config.go: the configuration, its validation, and how it is loaded.
pub mod Validity
use Prim.Native.String.{◌++◌ as text_append}
use thing_directory.Common.{
  zero, suc, Bool, true, false, not, ◌&&◌, ◌||◌, String, Option, none, some, List, ◌==◌,
  if◌then◌else◌,
}
use thing_directory.Errors.{plain, error_text, Result, ok, err, panicked, Io, io, ◌>>=◌, ◌>>◌}
use thing_directory.Start.Packages.{Packages, ℤ, pos, negsuc}

pub record TlsConfig : Type 0 where
  pub enabled : Bool
  pub key_file : String
  pub cert_file : String

pub record DnssdConfig : Type 0 where
  pub enabled : Bool
  pub instance_name : String
  pub domain : String
  pub interfaces : List String

pub record StorageConfig : Type 0 where
  pub type : String
  pub dsn : String

module _ (p : Packages) where
  pub record HttpConfig : Type 0 where
    pub public_endpoint : String
    pub bind_addr : String
    pub bind_port : ℤ
    -- a pointer, nil without "tls"
    pub tls_config : Option TlsConfig
    pub auth : p.ValidatorConf

  pub record ServiceCatalog : Type 0 where
    pub enabled : Bool
    pub discover : Bool
    pub endpoint : String
    pub ttl : ℤ
    pub auth : p.ObtainerConf

  pub record Config : Type 0 where
    pub service_id : String
    pub description : String
    -- Validation
    pub json_schemas : List String
    pub http : HttpConfig
    pub dnssd : DnssdConfig
    pub storage : StorageConfig
    pub service_catalog : ServiceCatalog

abbrev pub backend_memory : String
backend_memory = "memory"

abbrev pub backend_level_db : String
backend_level_db = "leveldb"

-- A type that is missing in the map is not supported.
unfoldable pub supported_backends : String → Bool
supported_backends type =
    if type == backend_memory then false else if type == backend_level_db then true else false

abbrev pub is_zero : ℤ → Bool
is_zero (pos zero) = true
is_zero (pos (suc n)) = false
is_zero (negsuc n) = false

-- <= 0
abbrev pub is_nonpositive : ℤ → Bool
is_nonpositive (pos zero) = true
is_nonpositive (pos (suc n)) = false
is_nonpositive (negsuc n) = true

abbrev pub refuse_if : Bool → String → Result (Unit {0})
refuse_if true m = err (plain m)
refuse_if false m = ok tt

abbrev pub refuse_error : Option String → (String → String) → Result (Unit {0})
refuse_error none m = ok tt
refuse_error (some e) m = err (plain (m e))

module _ (p : Packages) where
  unfoldable pub validate_service_catalog : ServiceCatalog p → Result (Unit {0})
  validate_service_catalog c = do
    refuse_if (c.endpoint == "" && c.discover)
        "Service Catalog must have either endpoint or set discovery flag"
    refuse_if (is_nonpositive c.ttl) "Service Catalog must have TTL >= 0"
    if p.obtainer_enabled c.auth
        then refuse_error (p.obtainer_error c.auth)
            (λ e. text_append "invalid Service Catalog auth: " e)
        else ok tt

  unfoldable pub validate : Config p → Result (Unit {0})
  unfolding supported_backends validate_service_catalog
  validate c = do
    refuse_if (c.http.bind_addr == "" || (is_zero c.http.bind_port || c.http.public_endpoint == ""))
        "BindAddr, BindPort, and PublicEndpoint have to be defined"
    refuse_error (p.url_error c.http.public_endpoint) (λ e. "PublicEndpoint should be a valid URL")
    if p.validator_enabled c.http.auth
        then refuse_error (p.validator_error c.http.auth) (λ e. text_append "invalid auth: " e)
        else ok tt
    refuse_error (p.url_error c.storage.dsn) (λ e. "storage DSN should be a valid URL")
    refuse_if (not (supported_backends c.storage.type)) "unsupported storage backend"
    if c.service_catalog.enabled then validate_service_catalog c.service_catalog else ok tt

  abbrev invalid : Config p → Result (Unit {0}) → Result (Config p)
  invalid c (ok u) = ok c
  invalid c (err e) = err (plain (text_append "invalid configuration: " (error_text e)))
  invalid c (panicked m) = panicked m

  -- `read` and `decode` are ioutil.ReadFile and json.Unmarshal, and `override` is envconfig.Process.
  unfoldable pub load_config :
      {File : Type 0}
      → (String → Io File)
      → (File → Io (Config p))
      → (Config p → Io (Config p))
      → String
      → Result (Config p)
  unfolding validate
  load_config read decode override path = do
    file ← io (read path)
    config ← io (decode file)
    config ← io (override config)
    invalid config (validate config)
