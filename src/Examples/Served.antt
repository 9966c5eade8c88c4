-- ===== src/Examples/Served.antt =====
-- The theorem on what the command announces, applied: a cell with the default configuration.
use rep.Base.{◌≡◌, refl, [], ◌∷◌, Bool, false, true, String, some}
use rep.Base.Int.{pos}
use rep.Services.{ping, total_resources}
use rep.Maintainer.{
  CellPresence, Config, Maintainer, new_maintainer, cell_presence, create_heartbeater, starting,
  started, Steps, stay, then_step, ping_executor, create,
}
use rep.Command.Settings.{
  Libraries, RepConfig, default_config, Server, initialize_server, presence_url, url_at, rep_url,
  rep_host, maintain_config, port_of, cut, server_at,
}
use rep.Command.Announced.{Listens}
use rep.Command.StackMaps.{colonless}
use rep.Command.Presence.{Describes, Steps-Describes}
use rep.Examples.{env, steady, executor_resources}

abbrev libraries : Libraries
libraries = record {
  ExecutorConfig = Unit;
  LagerConfig = Unit;
  LoggregatorConfig = Unit;
  default_executor = tt;
  default_lager = tt;
  zero_loggregator = tt;
  locket_retry_interval = pos 5000000000;
  default_session_ttl = pos 15000000000;
}

abbrev secure_server : Server
secure_server = record {
  listens_at = "0.0.0.0:1801";
  with_tls = true;
  address = "https://10.0.0.1:1801";
}

abbrev config : RepConfig libraries
config = record (default_config libraries) { cell_id = "cell_z1" }

abbrev announced_url : String
announced_url = "https://cell-z1.cell.service.cf.internal:1801"

abbrev maintained : Config
maintained = maintain_config config "http://10.0.0.1:1800" [] announced_url

secure_server_starts : initialize_server config "10.0.0.1" true ≡ some secure_server
unfolding initialize_server default_config port_of cut server_at
secure_server_starts = refl

url_announced : presence_url config true ≡ some announced_url
unfolding presence_url default_config port_of cut url_at rep_url rep_host
url_announced = refl

abbrev presence : CellPresence
presence = cell_presence maintained executor_resources

abbrev at_start : Maintainer Bool
at_start = record {
  phase = starting;
  ready = true;
  closes = 0;
  process = some (started presence);
  alive = 1;
  world = record { outside = false; calls = total_resources ∷ ping ∷ [] };
}

first_start : Steps env maintained (new_maintainer steady) at_start
unfolding create_heartbeater
first_start = then_step (then_step stay (ping_executor refl)) (create refl)

config-Listens : Listens config.listen_addr_securable "0.0.0.0" "1801"
unfolding default_config colonless
config-Listens = record { written = refl; host_plain = refl; port_plain = refl }

Steps-Describes_example : Describes env config "10.0.0.1" "0.0.0.0" "1801" secure_server presence
Steps-Describes_example =
    Steps-Describes env config "10.0.0.1" "0.0.0.0" "1801" "http://10.0.0.1:1800" announced_url []
      secure_server steady config-Listens url_announced secure_server_starts first_start refl
