-- ===== src/Examples/Starts.antt =====
-- The theorems on the start of the directory, each on a concrete input.
use thing_directory.Common.{◌≡◌, false, true, String, none, some, []}
use thing_directory.Errors.{ok, done}
use thing_directory.Start.Packages.{Packages, pos}
use thing_directory.Start.Config.{Config}
use thing_directory.Start.Main.{Start}
use thing_directory.LevelDb.Memory.{empty}
use thing_directory.Common.Order.{text_order, bytes_order}
use thing_directory.Examples.{test_db, test_queue_db}
use thing_directory.Start.Discovery.{escape_dnssd_service_instance}
use thing_directory.Start.Discovery.Escape.{unescape, is_label, unescape-escape}

-- Each call succeeds.
abbrev pub packages : Packages
packages = record {
  url_error = λ s. none;
  ValidatorConf = Unit;
  validator_enabled = λ c. true;
  validator_error = λ c. none;
  setup_validator = λ c. none;
  ObtainerConf = Unit;
  obtainer_enabled = λ c. true;
  obtainer_error = λ c. none;
  Ticket = Unit;
  new_ticket_client = λ c. done tt;
  Registrator = Unit;
  register_service = λ e s t. done tt;
  Interface = String;
  interface_by_name = λ s. done s;
  listen_error = λ a p. none;
  is_multicast = λ i. true;
  Server = Unit;
  register_dnssd = λ i t d p x is. done tt;
}

abbrev pub config : Config packages
config = record {
  service_id = "";
  description = "";
  json_schemas = [];
  http = record {
    public_endpoint = "http://localhost:8081";
    bind_addr = "0.0.0.0";
    bind_port = pos 8081;
    tls_config = some (record { enabled = false; key_file = ""; cert_file = "" });
    auth = tt;
  };
  dnssd = record { enabled = false; instance_name = ""; domain = "local."; interfaces = [] };
  storage = record { type = "leveldb"; dsn = "./data" };
  service_catalog = record {
    enabled = true;
    discover = false;
    endpoint = "";
    ttl = pos 60;
    auth = tt;
  };
}

unescape-escape_example :
    (unescape false (escape_dnssd_service_instance "a.b\\c") ≡ "a.b\\c")
    × (is_label false (escape_dnssd_service_instance "a.b\\c") ≡ true)
unescape-escape_example = unescape-escape "a.b\\c"

-- A start over empty databases.
abbrev start : Start packages test_db test_queue_db
start = record {
  loaded = ok config;
  uuid = "1";
  version = "";
  open_storage = λ dsn. done empty;
  open_queue = λ dsn. done empty;
}
