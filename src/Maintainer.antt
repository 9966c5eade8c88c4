-- ===== src/Maintainer.antt =====
-- maintain/maintain.go: the maintainer, which announces the cell while the executor answers its pings.
-- Logging is left out. ifrit.Background, which runs the heartbeater as a process, is not part of the
-- repository: a process may become ready and exit with any result, whether or not it was signaled.
pub mod Phases
pub mod Run
pub mod Ready
pub mod Stops
pub mod Announces
use rep.Base.{◌≡◌, ℕ, zero, suc, ◌-◌, String, Bool, true, false, List, Option, none, some}
use rep.Base.Tests.{if◌then◌else◌}
use rep.Base.Int.{ℤ, pos, int32}
use rep.Base.Result.{Result, ok, err}
use rep.Models.{ExecutorResources}
use rep.Services.{
  ExecutorError, Env, World, M, pure, ask, on_result, ◌>>=◌, ping, total_resources, await_timer,
}

pub record Config : Type 0 where
  pub cell_id : String
  pub rep_address : String
  pub rep_url : String
  pub zone : String
  pub retry_interval : ℤ
  pub root_fs_providers : List String
  pub preloaded_root_fses : List String
  pub placement_tags : List String
  pub optional_placement_tags : List String

-- models.CellPresence, by the arguments of its constructor.
pub record CellPresence : Type 0 where
  pub cell_id : String
  pub rep_address : String
  pub rep_url : String
  pub zone : String
  pub memory_mb : ℤ
  pub disk_mb : ℤ
  pub containers : ℤ
  pub root_fs_providers : List String
  pub preloaded_root_fses : List String
  pub placement_tags : List String
  pub optional_placement_tags : List String

-- ExecutorPollInterval, in nanoseconds.
abbrev pub executor_poll_interval : ℤ
executor_poll_interval = pos 1000000000

unfoldable pub cell_presence : Config → ExecutorResources → CellPresence
cell_presence config resources = record {
  cell_id = config.cell_id;
  rep_address = config.rep_address;
  rep_url = config.rep_url;
  zone = config.zone;
  memory_mb = int32 resources.memory_mb;
  disk_mb = int32 resources.disk_mb;
  containers = int32 resources.containers;
  root_fs_providers = config.root_fs_providers;
  preloaded_root_fses = config.preloaded_root_fses;
  placement_tags = config.placement_tags;
  optional_placement_tags = config.optional_placement_tags;
}

-- createHeartbeater, as the presence that the heartbeater announces.
unfoldable pub create_heartbeater :
    {S : Type 0} → Env S → Config → M S (Result ExecutorError CellPresence)
unfolding cell_presence
create_heartbeater env config = ask env total_resources >>= λ reply.
    on_result reply (λ resources. pure (ok (cell_presence config resources))) (λ e. pure (err e))

-- The error with which the heartbeat process exits.
pub data HeartbeatError : Type 0 where
  heartbeat_error : String → HeartbeatError

pub data MaintainError : Type 0 where
  signaled_while_waiting : MaintainError
  no_resources : ExecutorError → MaintainError

-- Where Run stands: in waitForExecutor before Ping, at its select, and before createHeartbeater; in
-- heartbeat at its first select, in its loop, at the select after a failed ping, and at the receive from
-- heartbeatExitChan after a signal; or returned.
pub data Phase : Type 0 where
  pinging sleeping creating : Phase
  starting heartbeating stopping awaiting_exit : Phase
  returned : Option MaintainError → Phase

-- The heartbeat process that Run started last: whether it is ready, whether it was sent a signal, and what
-- is in its exit channel.
pub record Process : Type 0 where
  pub presence : CellPresence
  pub is_ready : Bool
  pub signaled : Bool
  pub exit : Option (Option HeartbeatError)

-- `ready` is whether Run's variable of this name still holds the channel, `closes` how often the channel
-- was closed, `alive` how many of the processes started have not exited.
pub record Maintainer (S : Type 0) : Type 0 where
  pub phase : Phase
  pub ready : Bool
  pub closes : ℕ
  pub process : Option Process
  pub alive : ℕ
  pub world : World S

abbrev pub new_maintainer : {S : Type 0} → World S → Maintainer S
new_maintainer w = record {
  phase = pinging;
  ready = true;
  closes = 0;
  process = none;
  alive = 0;
  world = w;
}

abbrev pub started : CellPresence → Process
started presence = record { presence = presence; is_ready = false; signaled = false; exit = none }

-- After waitForExecutor's Ping: err == nil, or the select.
abbrev pub after_ping : Result ExecutorError (Unit {0}) → Phase
after_ping (ok _) = creating
after_ping (err _) = sleeping

-- After createHeartbeater: heartbeat starts a process, or Run returns the error.
abbrev pub after_create :
    {S : Type 0} → Result ExecutorError CellPresence → Maintainer S → Maintainer S
after_create (ok presence) m = record m {
  phase = starting;
  process = some (started presence);
  alive = suc m.alive;
}
after_create (err e) m = record m { phase = returned (some (no_resources e)) }

-- After heartbeat: ready = nil, and a return if err is nil.
abbrev pub after_heartbeat : {S : Type 0} → Option HeartbeatError → Maintainer S → Maintainer S
after_heartbeat none m = record m { phase = returned none; ready = false }
after_heartbeat (some _) m = record m { phase = pinging; ready = false }

-- if ready != nil { close(ready) }
abbrev pub closed : {S : Type 0} → Maintainer S → ℕ
closed m = if m.ready then suc m.closes else m.closes

-- After the ping of heartbeat's loop: continue, or Signal(os.Kill).
abbrev pub after_tick :
    {S : Type 0} → Process → Result ExecutorError (Unit {0}) → Maintainer S → Maintainer S
after_tick p (ok _) m = m
after_tick p (err _) m = record m {
  phase = stopping;
  process = some (record p { signaled = true });
}

module _ {S : Type 0} (env : Env S) (config : Config) where
  -- Every step of Run, by the phase it is in and what it receives.
  pub data Step (m : Maintainer S) : Maintainer S → Type 0 where
    ping_executor :
        m.phase ≡ pinging
        → Step m (record m {
          phase = after_ping (ask env ping m.world).0;
          world = (ask env ping m.world).1;
        })
    wake :
        m.phase ≡ sleeping
        → Step m (record m {
          phase = pinging;
          world = (ask env (await_timer executor_poll_interval) m.world).1;
        })
    signal_waiting :
        m.phase ≡ sleeping → Step m (record m { phase = returned (some signaled_while_waiting) })
    create :
        m.phase ≡ creating
        → Step m (
            after_create
              (create_heartbeater env config m.world).0
              (record m { world = (create_heartbeater env config m.world).1 }))
    see_ready :
        {p : Process}
        → m.phase ≡ starting
        → m.process ≡ some p
        → p.is_ready ≡ true
        → Step m (record m { phase = heartbeating; closes = closed m })
    exit_starting :
        {p : Process} {e : Option HeartbeatError}
        → m.phase ≡ starting
        → m.process ≡ some p
        → p.exit ≡ some e
        → Step m (after_heartbeat e m)
    signal_starting :
        {p : Process}
        → m.phase ≡ starting
        → m.process ≡ some p
        → Step m (record m { phase = awaiting_exit; process = some (record p { signaled = true }) })
    exit_heartbeating :
        {p : Process} {e : Option HeartbeatError}
        → m.phase ≡ heartbeating
        → m.process ≡ some p
        → p.exit ≡ some e
        → Step m (after_heartbeat e m)
    signal_heartbeating :
        {p : Process}
        → m.phase ≡ heartbeating
        → m.process ≡ some p
        → Step m (record m { phase = awaiting_exit; process = some (record p { signaled = true }) })
    tick :
        {p : Process}
        → m.phase ≡ heartbeating
        → m.process ≡ some p
        → Step m
            (after_tick p (ask env ping m.world).0 (record m { world = (ask env ping m.world).1 }))
    -- the error returned is that of the ping, which is not nil
    stopped :
        {p : Process} {e : Option HeartbeatError}
        → m.phase ≡ stopping
        → m.process ≡ some p
        → p.exit ≡ some e
        → (ping_error : HeartbeatError) → Step m (after_heartbeat (some ping_error) m)
    signal_stopping : m.phase ≡ stopping → Step m (after_heartbeat none m)
    exit_awaited :
        {p : Process} {e : Option HeartbeatError}
        → m.phase ≡ awaiting_exit
        → m.process ≡ some p
        → p.exit ≡ some e
        → Step m (after_heartbeat none m)
    -- the process
    become_ready :
        {p : Process}
        → m.process ≡ some p
        → p.exit ≡ none
        → Step m (record m { process = some (record p { is_ready = true }) })
    exit :
        {p : Process}
        → m.process ≡ some p
        → p.exit ≡ none
        → (e : Option HeartbeatError)
        → Step m (record m { process = some (record p { exit = some e }); alive = m.alive - 1 })
    -- something else in the world changes
    elsewhere : (s : S) → Step m (record m { world = record m.world { outside = s } })

  pub data Steps (m : Maintainer S) : Maintainer S → Type 0 where
    stay : Steps m m
    then_step : {n o : Maintainer S} → Steps m n → Step n o → Steps m o
