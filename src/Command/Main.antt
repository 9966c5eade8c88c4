-- ===== src/Command/Main.antt =====
-- cmd/rep/main.go: main, up to the group of members that it invokes, and the order of these.
use rep.Base.{ℕ, String, ◌==◌, true, false, List, [], ◌∷◌, ◌++◌, map, not}
use rep.Base.Tests.{if◌then◌else◌}
use rep.Base.Int.{ℤ}
use rep.Base.Result.{Result, ok, err}
use rep.Command.Settings.{
  Libraries, RepConfig, new_rep_config, preloaded_root_fses, garden_healthcheck_root_fs,
}
use rep.Command.Startup.{
  Exit, panicked, fatal, exit_1, Startup, ◌>>=◌, ◌>>◌, or_fatal, or_exit, BbsClient, ConsulClient,
  Emitter, Registration, Presence, HttpServer, initialize_bbs_client, initialize_consul_client,
  initialize_metron, initialize_registration_runner, start_server, initialize_cell_presence,
}

-- What the members run; those of the executor and the debug server belong to other libraries.
pub data Runner : Type 0 where
  presence_runner : Presence → Runner
  http_server : HttpServer → Runner
  evacuation_cleanup : (cell_id : String) → Runner
  bulker : (poll_interval evacuation_poll_interval : ℤ) → Runner
  event_consumer : Runner
  evacuator : (cell_id : String) → (timeout polling_interval : ℤ) → Runner
  registration_runner : Registration → Runner
  executor_runner : Runner
  debug_server : (address : String) → Runner

-- grouper.Member
pub record Member : Type 0 where
  pub name : String
  pub runner : Runner

-- What main has made when it invokes the group: the configuration with the zone of the command line,
-- the clients, what the operation generator is made of, and the members in the order of their start.
pub record Started (l : Libraries) : Type 0 where
  pub config : RepConfig l
  pub emitter : Emitter
  pub consul : ConsulClient
  pub bbs : BbsClient
  pub evacuation_ttl : ℕ
  pub members : List Member

-- `if err != nil { panic(err.Error()) }`
abbrev pub or_panic : {A : Type 0} → Result String A → Result Exit A
or_panic (ok a) = ok a
or_panic (err e) = err (panicked e)

abbrev pub member : String → Runner → Member
member name runner = record { name = name; runner = runner }

abbrev pub executor_member : String → Member
executor_member name = member name executor_runner

module _ {l : Libraries} where
  unfoldable pub override_zone : String → RepConfig l → RepConfig l
  override_zone zone c = if not (zone == "") then record c { zone = zone } else c

  unfoldable pub with_debug_server : RepConfig l → List Member → List Member
  with_debug_server c members =
      if not (c.debug_address == "")
      then member "debug-server" (debug_server c.debug_address) ∷ members
      else members

  -- The members of the rep itself.
  unfoldable pub rep_members :
      RepConfig l → Presence → HttpServer → HttpServer → Registration → List Member
  rep_members c presence http https registration =
      member "presence" (presence_runner presence)
      ∷ member "http_server" (http_server http)
      ∷ member "https_server" (http_server https)
      ∷ member "evacuation-cleanup" (evacuation_cleanup c.cell_id)
      ∷ member "bulker" (bulker c.polling_interval c.evacuation_polling_interval)
      ∷ member "event-consumer" event_consumer
      ∷ member "evacuator" (evacuator c.cell_id c.evacuation_timeout c.evacuation_polling_interval)
      ∷ member "registration-runner" (registration_runner registration)
      ∷ []

  -- main once the configuration is read.
  unfoldable pub start : Startup l → RepConfig l → Result Exit (Started l)
  unfolding preloaded_root_fses garden_healthcheck_root_fs initialize_metron
      initialize_consul_client initialize_bbs_client start_server initialize_registration_runner
      initialize_cell_presence rep_members with_debug_server
  start s c = do
    let root_fses = preloaded_root_fses c.preloaded_root_fs
    let garden_root_fs = garden_healthcheck_root_fs c.preloaded_root_fs root_fses
    if not (s.validate c.executor_config) then err (fatal "") else ok tt
    if c.cell_id == "" then err (exit_1 "invalid-cell-id") else ok tt
    emitter ← or_exit "failed-to-initialize-metron-client" (initialize_metron s c)
    executor ←
        or_exit "failed-to-initialize-executor"
          (s.initialize_executor c.executor_config garden_root_fs)
    consul ← initialize_consul_client s c
    bbs ← initialize_bbs_client s c
    http ← start_server s c false
    https ← start_server s c true
    (host, port_string) ← or_fatal "failed-invalid-server-address" (s.split_host_port c.listen_addr)
    port ← or_fatal "failed-invalid-server-port" (s.lookup_port port_string)
    let registration = initialize_registration_runner c port
    presence ← initialize_cell_presence s c http.server.address root_fses true
    let members = map executor_member executor ++ rep_members c presence http https registration
    ok (record {
      config = c;
      emitter = emitter;
      consul = consul;
      bbs = bbs;
      evacuation_ttl = s.whole_seconds c.evacuation_timeout;
      members = with_debug_server c members;
    })

  -- main, of the two flags.
  unfoldable pub main : Startup l → (config_file_path zone : String) → Result Exit (Started l)
  unfolding new_rep_config override_zone start
  main s config_file_path zone = do
    read ← or_panic (new_rep_config l s.open_file s.decode config_file_path)
    start s (override_zone zone read)
