-- ===== src/Command/Presence.antt =====
-- What the maintainer that the command starts announces of the cell, against the secure server that the
-- command starts (initializeCellPresence and initializeServer of cmd/rep/main.go).
use mathlib.Core.Option.{some-injective}
use Prim.Native.String.{◌++◌}
use rep.Base.{String, List, true, some, ◌≡◌, sym, ap, ◌∙◌}
use rep.Base.Int.{int32}
use rep.Base.Result.{ok}
use rep.Models.{ExecutorResources}
use rep.Services.{Env, World, total_resources}
use rep.Maintainer.{CellPresence, cell_presence, Process, Maintainer, new_maintainer, Steps}
use rep.Maintainer.Announces.{Steps-IsReported}
use rep.Command.Settings.{
  Libraries, RepConfig, presence_url, maintain_config, Server, initialize_server,
  rep_url as rep_url_of,
}
use rep.Command.Announced.{Listens, scheme, initialize_server-Agree}

-- A presence tells the id and the zone of the cell, where its secure server is, and its total resources, as
-- the executor gave them at some time.
pub record Describes {l : Libraries} {S : Type 0} (env : Env S) (config : RepConfig l)
    (ip host port : String) (server : Server) (presence : CellPresence) : Type 0 where
  pub cell_id : presence.cell_id ≡ config.cell_id
  pub zone : presence.zone ≡ config.zone
  pub listens : Listens server.listens_at host port
  pub tls : server.with_tls ≡ config.require_tls
  pub rep_url :
      presence.rep_url
      ≡ scheme server.with_tls ++ rep_url_of config.cell_id config.advertise_domain ++ ":" ++ port
  pub outside : S
  pub resources : ExecutorResources
  pub reported : (env.answer total_resources outside).0 ≡ ok resources
  pub memory : presence.memory_mb ≡ int32 resources.memory_mb
  pub disk : presence.disk_mb ≡ int32 resources.disk_mb
  pub containers : presence.containers ≡ int32 resources.containers

-- Where the presence and the secure server are made from one configuration, whose listen address of the
-- secure server is a host and a port without colons, every process that the maintainer starts announces the
-- id and the zone of the cell, a URL of the cell with the port of the address at which the secure server
-- listens, with the scheme https exactly if this server uses TLS, and the total resources that the executor
-- gave, as 32-bit integers.
pub Steps-Describes :
    {l : Libraries} {S : Type 0} (env : Env S) (config : RepConfig l)
    (ip host port address url : String) (root_fses : List String) (server : Server) (w : World S)
    {m : Maintainer S} {p : Process}
    → Listens config.listen_addr_securable host port
    → presence_url config true ≡ some url
    → initialize_server config ip true ≡ some server
    → Steps env (maintain_config config address root_fses url) (new_maintainer w) m
    → m.process ≡ some p
    → Describes env config ip host port server p.presence
unfolding maintain_config cell_presence
Steps-Describes env config ip host port address url root_fses server w listens announced starts
      steps is =
    let agrees = initialize_server-Agree config ip host port server listens starts in
    let r = Steps-IsReported env (maintain_config config address root_fses url) w steps is in
    record {
      cell_id = ap (λ (x : CellPresence). x.cell_id) r.made;
      zone = ap (λ (x : CellPresence). x.zone) r.made;
      listens = agrees.listens;
      tls = agrees.tls;
      rep_url =
          ap (λ (x : CellPresence). x.rep_url) r.made
          ∙ some-injective {A = String} url _ (sym announced ∙ agrees.announced);
      outside = r.at.world.outside;
      resources = r.resources;
      reported = r.reported;
      memory = ap (λ (x : CellPresence). x.memory_mb) r.made;
      disk = ap (λ (x : CellPresence). x.disk_mb) r.made;
      containers = ap (λ (x : CellPresence). x.containers) r.made;
    }
