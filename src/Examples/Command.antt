-- ===== src/Examples/Command.antt =====
-- The theorem on main, applied to a configuration of which only the id of the cell is set.
use rep.Base.{true, subst, refl, ◌≡◌, [], ◌∷◌}
use rep.Base.Int.{pos}
use rep.Base.Result.{Result, ok, ok-injective}
use rep.Command.Settings.{Libraries, RepConfig, new_rep_config, default_config}
use rep.Command.Announced.{Listens}
use rep.Command.StackMaps.{colonless}
use rep.Command.Startup.{Exit, Startup, ◌>>=◌, ◌>>◌}
use rep.Command.Main.{Started, override_zone, main}
use rep.Command.Started.{IsStarted, main-IsStarted}
use rep.Examples.{executor_resources, IsOk, value, value-ok}

abbrev libraries : Libraries
libraries = record {
  ExecutorConfig = Unit;
  LagerConfig = Unit;
  LoggregatorConfig = Unit;
  default_executor = tt;
  default_lager = tt;
  zero_loggregator = tt;
  locket_retry_interval = pos 5000000000;
  default_session_ttl = pos 15000000000;
}

abbrev startup : Startup libraries
startup = record {
  open_file = λ path. ok "{}";
  decode = λ c text. ok (record c { cell_id = "cell_z1"; debug_address = "127.0.0.1:17010" });
  validate = λ c. true;
  new_ingress_client = λ c. ok tt;
  use_v2_api = λ c. true;
  initialize_executor = λ c root_fs. ok ("volman-driver-syncer" ∷ []);
  consul_scheme = λ url. ok "http";
  new_tls_client_from_url = λ url ca cert key. ok tt;
  new_client_from_url = λ url. ok tt;
  url_scheme = λ url. ok "https";
  new_secure_client = λ url ca cert key size idle. ok tt;
  new_router = λ routes handlers. ok tt;
  local_ip = ok "10.0.0.1";
  new_tls_config = λ cert key ca. ok tt;
  split_host_port = λ address. ok ("0.0.0.0", "1800");
  lookup_port = λ port. ok (pos 1800);
  new_locket_client = λ c. ok tt;
  new_v4 = ok "guid";
  total_resources = ok executor_resources;
  marshal = λ presence. ok "{}";
  whole_seconds = λ d. 600;
}

abbrev result : Result Exit (Started libraries)
result = main startup "rep.json" "z1"

result-IsOk : IsOk result
unfolding main ◌>>=◌ ◌>>◌
result-IsOk = tt

read-Listens :
    (read : RepConfig libraries)
    → new_rep_config libraries startup.open_file startup.decode "rep.json" ≡ ok read
    → Listens read.listen_addr_securable "0.0.0.0" "1801"
unfolding new_rep_config default_config colonless
read-Listens read h =
    subst (λ (c : RepConfig libraries). Listens c.listen_addr_securable "0.0.0.0" "1801")
      (ok-injective _ read h) (record { written = refl; host_plain = refl; port_plain = refl })

main-IsStarted_example :
    (read : RepConfig libraries) × (new_rep_config libraries startup.open_file startup.decode
        "rep.json"
      ≡ ok read)
    × IsStarted startup (override_zone "z1" read) "0.0.0.0" "1801" (value result result-IsOk)
main-IsStarted_example =
    main-IsStarted startup "rep.json" "z1" "0.0.0.0" "1801" (value result result-IsOk) read-Listens
      (value-ok result result-IsOk)
