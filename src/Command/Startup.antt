-- ===== src/Command/Startup.antt =====
-- cmd/rep/main.go: the clients, the servers and the presence of the cell that main makes from the
-- configuration, with the ways in which this ends the process. What the libraries make is a parameter;
-- logger.Fatal is known by its message.
use Prim.Native.Nat.{◌/◌}
use rep.Base.{ℕ, zero, suc, String, ◌==◌, Bool, List, [], ◌∷◌, Option, none, some, not}
use rep.Base.Tests.{if◌then◌else◌}
use rep.Base.Int.{ℤ, pos, negsuc}
use rep.Base.GoMap.{GoMap}
use rep.Base.Result.{Result, ok, err, and_then}
use rep.Models.{ExecutorResources}
use rep.Maintainer.{Config, CellPresence, cell_presence}
use rep.AuctionRep.{AuctionCellRep, new}
use rep.Routes.{Route, Handler, get_handlers, get_routes}
use rep.Command.Settings.{
  Libraries, RepConfig, rep_host, rep_base_host_name, presence_url, maintain_config, Server,
  initialize_server,
}

-- How the process ends before its members run.
pub data Exit : Type 0 where
  panicked fatal exit_1 : String → Exit
  index_out_of_range : Exit

-- The functions of the libraries that main and its helpers call.
pub record Startup (l : Libraries) : Type 0 where
  pub open_file : String → Result String String
  pub decode : RepConfig l → String → Result String (RepConfig l)
  pub validate : l.ExecutorConfig → Bool
  pub new_ingress_client : l.LoggregatorConfig → Result String (Unit {0})
  pub use_v2_api : l.LoggregatorConfig → Bool
  -- executorinit.Initialize, by the names of the executor's members
  pub initialize_executor : l.ExecutorConfig → String → Result String (List String)
  pub consul_scheme : String → Result String String
  pub new_tls_client_from_url : String → String → String → String → Result String (Unit {0})
  pub new_client_from_url : String → Result String (Unit {0})
  pub url_scheme : String → Result String String
  pub new_secure_client : String → String → String → String → ℤ → ℤ → Result String (Unit {0})
  pub new_router : List Route → GoMap Handler → Result String (Unit {0})
  pub local_ip : Result String String
  pub new_tls_config : String → String → String → Result String (Unit {0})
  pub split_host_port : String → Result String (String × String)
  pub lookup_port : String → Result String ℤ
  pub new_locket_client : RepConfig l → Result String (Unit {0})
  pub new_v4 : Result String String
  pub total_resources : Result String ExecutorResources
  pub marshal : CellPresence → Result String String
  -- uint64(d.Seconds())
  pub whole_seconds : ℤ → ℕ

infixl 5 ◌>>=◌ ◌>>◌
unfoldable pub ◌>>=◌ : {A B : Type 0} → Result Exit A → (A → Result Exit B) → Result Exit B
r >>= f = and_then r f

unfoldable pub ◌>>◌ : {A B : Type 0} → Result Exit A → Result Exit B → Result Exit B
unfolding ◌>>=◌
r >> s = r >>= λ _. s

-- `if err != nil { logger.Fatal(message, err) }`, and the same with os.Exit(1) after logger.Error.
abbrev pub or_fatal : {A : Type 0} → String → Result String A → Result Exit A
or_fatal message (ok a) = ok a
or_fatal message (err _) = err (fatal message)

abbrev pub or_exit : {A : Type 0} → String → Result String A → Result Exit A
or_exit message (ok a) = ok a
or_exit message (err _) = err (exit_1 message)

-- strings.Split(...)[1]
abbrev pub indexed : {A : Type 0} → Option A → Result Exit A
indexed (some a) = ok a
indexed none = err index_out_of_range

pub data BbsClient : Type 0 where
  bbs_client : String → BbsClient
  secure_bbs_client : String → String → String → String → ℤ → ℤ → BbsClient

pub data ConsulClient : Type 0 where
  consul_client : String → ConsulClient
  tls_consul_client : String → String → String → String → ConsulClient

-- What initializeMetron starts beside the client.
pub data Emitter : Type 0 where
  runtime_emitter : Emitter
  dropsonde : ℤ → Emitter

-- api.AgentServiceRegistration
pub record Registration : Type 0 where
  pub name : String
  pub port : ℤ
  pub check_ttl : String
  pub tags : List String

-- The presence runner: locketmodels.Resource with the TTL in seconds, or the maintainer with its TTL.
pub data Presence : Type 0 where
  locket_presence : CellPresence → (key owner value : String) → ℤ → Presence
  maintained_presence : Config → ℤ → Presence

pub record HttpServer : Type 0 where
  pub server : Server
  pub cell_rep : AuctionCellRep
  pub routes : List Route
  pub handlers : GoMap Handler

-- int64(d / time.Second), which rounds towards zero
unfoldable pub in_seconds : ℤ → ℤ
in_seconds (pos n) = pos (n / 1000000000)
in_seconds (negsuc n) = elim (suc n / 1000000000) [ zero ↦ pos 0 | suc m ↦ negsuc m ]

module _ {l : Libraries} where
  unfoldable pub initialize_bbs_client : Startup l → RepConfig l → Result Exit BbsClient
  initialize_bbs_client s c = do
    scheme ← or_fatal "Invalid BBS URL" (s.url_scheme c.bbs_address)
    if not (scheme == "https") then ok (bbs_client c.bbs_address) else (do
      or_fatal "Failed to configure secure BBS client" (
          s.new_secure_client c.bbs_address c.bbs_ca_cert_file c.bbs_client_cert_file
            c.bbs_client_key_file c.bbs_client_session_cache_size c.bbs_max_idle_conns_per_host)
      ok (
          secure_bbs_client c.bbs_address c.bbs_ca_cert_file c.bbs_client_cert_file
            c.bbs_client_key_file c.bbs_client_session_cache_size c.bbs_max_idle_conns_per_host))

  unfoldable pub initialize_consul_client : Startup l → RepConfig l → Result Exit ConsulClient
  initialize_consul_client s c = do
    scheme ← or_fatal "parse-consul-cluster-failed" (s.consul_scheme c.consul_cluster)
    if scheme == "https"
        then (do
          or_fatal "new-client-failed" (
              s.new_tls_client_from_url c.consul_cluster c.consul_ca_cert c.consul_client_cert
                c.consul_client_key)
          ok (
              tls_consul_client c.consul_cluster c.consul_ca_cert c.consul_client_cert
                c.consul_client_key))
        else (do
          or_fatal "new-client-failed" (s.new_client_from_url c.consul_cluster)
          ok (consul_client c.consul_cluster))

  unfoldable pub initialize_metron : Startup l → RepConfig l → Result String Emitter
  initialize_metron s c = and_then (s.new_ingress_client c.loggregator_config) λ _.
      if s.use_v2_api c.loggregator_config
      then ok runtime_emitter
      else ok (dropsonde c.dropsonde_port)

  unfoldable pub initialize_registration_runner : RepConfig l → ℤ → Registration
  unfolding rep_base_host_name rep_host
  initialize_registration_runner c port = record {
    name = rep_base_host_name c.advertise_domain;
    port = port;
    check_ttl = "3s";
    tags = rep_host c.cell_id ∷ [];
  }

  -- initializeServer, with the errors of the router, of the IP and of the certificates.
  unfoldable pub start_server : Startup l → RepConfig l → Bool → Result Exit HttpServer
  unfolding initialize_server get_handlers get_routes new
  start_server s c secure = do
    let handlers = get_handlers c.enable_legacy_api_server secure
    let routes = get_routes c.enable_legacy_api_server secure
    or_fatal "failed-to-construct-router" (s.new_router routes handlers)
    ip ← or_fatal "failed-to-fetch-ip" s.local_ip
    server ← indexed (initialize_server c ip secure)
    if server.with_tls
        then or_fatal "tls-configuration-failed"
            (s.new_tls_config c.server_cert_file c.server_key_file c.ca_cert_file)
        else ok tt
    ok (record {
      server = server;
      cell_rep =
          new c.cell_id c.preloaded_root_fs c.supported_providers c.zone c.placement_tags
            c.optional_placement_tags;
      routes = routes;
      handlers = handlers;
    })

  -- The branch of initializeCellPresence for locket; the arguments of models.NewCellPresence are the
  -- same as in the maintainer.
  unfoldable pub locket_runner :
      Startup l → RepConfig l → String → List String → String → Result Exit Presence
  unfolding maintain_config cell_presence in_seconds
  locket_runner s c address root_fses url = do
    or_fatal "failed-to-construct-locket-client" (s.new_locket_client c)
    guid ← or_fatal "failed-to-generate-guid" s.new_v4
    resources ← or_fatal "failed-to-get-total-resources" s.total_resources
    let presence = cell_presence (maintain_config c address root_fses url) resources
    payload ← or_fatal "failed-to-encode-cell-presence" (s.marshal presence)
    ok (locket_presence presence c.cell_id guid payload (in_seconds c.lock_ttl))

  unfoldable pub initialize_cell_presence :
      Startup l → RepConfig l → String → List String → Bool → Result Exit Presence
  unfolding presence_url locket_runner maintain_config
  initialize_cell_presence s c address root_fses secure = do
    url ← indexed (presence_url c secure)
    if not (c.locket_address == "")
        then locket_runner s c address root_fses url
        else ok (maintained_presence (maintain_config c address root_fses url) c.lock_ttl)
