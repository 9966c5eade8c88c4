-- ===== src/Command/Settings.antt =====
-- cmd/rep/config/config.go: RepConfig, its defaults and its decoding; and the functions of
-- cmd/rep/main.go that make host names, addresses and the presence of the cell from it. The parts of the
-- configuration that belong to other libraries, and encoding/json's decoder, are parameters.
use Prim.Native.Char.{code}
use Prim.Native.String.{String, [], ◌∷◌, ◌++◌}
use mathlib.Core.List.{List, [] as []ᴸ, ◌∷◌ as ◌∷ᴸ◌}
use rep.Base.{ℕ, Bool, true, ◌&&◌, Option, none, some}
use rep.Base.Tests.{if◌then◌else◌, eqb}
use rep.Base.Int.{ℤ, pos}
use rep.Base.Result.{Result, ok, err}
use rep.Base.GoMap.{lookup}
use rep.Command.StackMap.{StackMap}
use rep.Maintainer.{Config}

-- The configurations of the executor, lager, the debug server, loggregator and locket, of which the
-- repository reads two addresses.
pub record Libraries : Type 1 where
  pub ExecutorConfig : Type 0
  pub LagerConfig : Type 0
  pub LoggregatorConfig : Type 0
  pub default_executor : ExecutorConfig
  pub default_lager : LagerConfig
  pub zero_loggregator : LoggregatorConfig
  pub locket_retry_interval : ℤ
  pub default_session_ttl : ℤ

-- RepConfig; durations are nanoseconds.
pub record RepConfig (l : Libraries) : Type 0 where
  pub advertise_domain : String
  pub bbs_address : String
  pub bbs_ca_cert_file : String
  pub bbs_client_cert_file : String
  pub bbs_client_key_file : String
  pub bbs_client_session_cache_size : ℤ
  pub bbs_max_idle_conns_per_host : ℤ
  pub ca_cert_file : String
  pub cell_id : String
  pub communication_timeout : ℤ
  pub consul_ca_cert : String
  pub consul_client_cert : String
  pub consul_client_key : String
  pub consul_cluster : String
  pub dropsonde_port : ℤ
  pub enable_legacy_api_server : Bool
  pub evacuation_polling_interval : ℤ
  pub evacuation_timeout : ℤ
  pub listen_addr : String
  pub listen_addr_admin : String
  pub listen_addr_securable : String
  pub lock_retry_interval : ℤ
  pub lock_ttl : ℤ
  pub optional_placement_tags : List String
  pub placement_tags : List String
  pub polling_interval : ℤ
  pub preloaded_root_fs : StackMap
  pub require_tls : Bool
  pub server_cert_file : String
  pub server_key_file : String
  pub session_name : String
  pub supported_providers : List String
  pub zone : String
  pub loggregator_config : l.LoggregatorConfig
  pub debug_address : String
  pub executor_config : l.ExecutorConfig
  pub lager_config : l.LagerConfig
  pub locket_address : String

abbrev pub seconds : ℤ
seconds = pos 1000000000

unfoldable pub default_config : (l : Libraries) → RepConfig l
default_config l = record {
  advertise_domain = "cell.service.cf.internal";
  bbs_address = "";
  bbs_ca_cert_file = "";
  bbs_client_cert_file = "";
  bbs_client_key_file = "";
  bbs_client_session_cache_size = pos 0;
  bbs_max_idle_conns_per_host = pos 0;
  ca_cert_file = "";
  cell_id = "";
  communication_timeout = pos 10000000000;
  consul_ca_cert = "";
  consul_client_cert = "";
  consul_client_key = "";
  consul_cluster = "";
  dropsonde_port = pos 3457;
  enable_legacy_api_server = true;
  evacuation_polling_interval = pos 10000000000;
  evacuation_timeout = pos 600000000000;
  listen_addr = "0.0.0.0:1800";
  listen_addr_admin = "";
  listen_addr_securable = "0.0.0.0:1801";
  lock_retry_interval = l.locket_retry_interval;
  lock_ttl = l.default_session_ttl;
  optional_placement_tags = []ᴸ;
  placement_tags = []ᴸ;
  polling_interval = pos 30000000000;
  preloaded_root_fs = []ᴸ;
  require_tls = true;
  server_cert_file = "";
  server_key_file = "";
  session_name = "rep";
  supported_providers = []ᴸ;
  zone = "";
  loggregator_config = l.zero_loggregator;
  debug_address = "";
  executor_config = l.default_executor;
  lager_config = l.default_lager;
  locket_address = "";
}

-- NewRepConfig: the file is opened and read, and decoded over the defaults.
unfoldable pub new_rep_config :
    (l : Libraries)
    → (String → Result String String)
    → (RepConfig l → String → Result String (RepConfig l))
    → String
    → Result String (RepConfig l)
unfolding default_config
new_rep_config l open_file decode path = elim (open_file path) [
  | err e ↦ err e
  | ok text ↦ decode (default_config l) text
]

-- strings.Replace(cellID, "_", "-", -1)
unfoldable pub rep_host : String → String
rep_host [] = []
rep_host (c ∷ s) = (if eqb (code c) b'_' then "-" else c) ∷ rep_host s

-- The part of a text before the first character with the code, and the part after it, if there is one.
unfoldable pub cut : ℕ → String → String × Option String
cut separator [] = ([], none)
cut separator (c ∷ s) =
    let (head, rest) = cut separator s in
    if eqb (code c) separator then ([], some s) else (c ∷ head, rest)

-- strings.Split(advertiseDomain, ".")[0]
unfoldable pub rep_base_host_name : String → String
unfolding cut
rep_base_host_name advertise_domain = (cut b'.' advertise_domain).0

unfoldable pub rep_url : String → String → String
unfolding rep_host
rep_url cell_id advertise_domain = rep_host cell_id ++ "." ++ advertise_domain

-- strings.Split(address, ":")[1]; `none` is the panic of the index.
unfoldable pub port_of : String → Option String
unfolding cut
port_of address = elim (cut b':' address).1 [ none ↦ none | some rest ↦ some (cut b':' rest).0 ]

-- The keys of PreloadedRootFS, in main.
unfoldable pub preloaded_root_fses : StackMap → List String
preloaded_root_fses []ᴸ = []ᴸ
preloaded_root_fses ((stack, path) ∷ᴸ more) = stack ∷ᴸ preloaded_root_fses more

-- m[k], with the zero value for a missing key.
abbrev pub value_at : Option String → String
value_at none = ""
value_at (some path) = path

-- gardenHealthcheckRootFS in main.
unfoldable pub garden_healthcheck_root_fs : StackMap → List String → String
garden_healthcheck_root_fs m []ᴸ = ""
garden_healthcheck_root_fs m (stack ∷ᴸ more) = value_at (lookup stack m)

-- Where initializeServer listens, whether with TLS, and the address that it returns.
pub record Server : Type 0 where
  pub listens_at : String
  pub with_tls : Bool
  pub address : String

-- The URL of a host and port, with TLS or without, if there is a port.
unfoldable pub url_at : Bool → String → Option String → Option String
url_at tls host none = none
url_at tls host (some port) =
    some (if tls then "https://" ++ host ++ ":" ++ port else "http://" ++ host ++ ":" ++ port)

unfoldable pub server_at : Bool → String → String → Option String → Option Server
server_at tls listen_address ip none = none
server_at tls listen_address ip (some port) = some (record {
  listens_at = listen_address;
  with_tls = tls;
  address = if tls then "https://" ++ ip ++ ":" ++ port else "http://" ++ ip ++ ":" ++ port;
})

module _ {l : Libraries} where
  -- repUrl in initializeCellPresence.
  unfoldable pub presence_url : RepConfig l → Bool → Option String
  unfolding port_of rep_url url_at
  presence_url config secure =
      url_at (secure && config.require_tls) (rep_url config.cell_id config.advertise_domain)
        (port_of config.listen_addr_securable)

  -- The maintainer's configuration in initializeCellPresence, where locket is not used.
  unfoldable pub maintain_config : RepConfig l → String → List String → String → Config
  maintain_config config address root_fses url = record {
    cell_id = config.cell_id;
    rep_address = address;
    rep_url = url;
    zone = config.zone;
    retry_interval = config.lock_retry_interval;
    root_fs_providers = config.supported_providers;
    preloaded_root_fses = root_fses;
    placement_tags = config.placement_tags;
    optional_placement_tags = config.optional_placement_tags;
  }

  -- initializeServer, with the IP of the cell, where the certificates load.
  unfoldable pub initialize_server : RepConfig l → String → Bool → Option Server
  unfolding port_of server_at
  initialize_server config ip secure =
      let listen_address = if secure then config.listen_addr_securable else config.listen_addr in
      server_at (secure && config.require_tls) listen_address ip (port_of listen_address)
