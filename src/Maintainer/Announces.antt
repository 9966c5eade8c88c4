-- ===== src/Maintainer/Announces.antt =====
-- What the heartbeat processes of the maintainer announce.
use rep.Base.{◌≡◌, refl, sym, subst, Option, none, some, arith}
use rep.Base.Result.{Result, ok, err, ok-injective}
use rep.Models.{ExecutorResources}
use rep.Services.{ExecutorError, Env, World, ask, pure, on_result, ping, total_resources}
use rep.Maintainer.{
  Config, CellPresence, cell_presence, create_heartbeater, creating, HeartbeatError, Process,
  Maintainer, new_maintainer, after_create, after_heartbeat, after_tick, Step, ping_executor, wake,
  signal_waiting, create, see_ready, exit_starting, signal_starting, exit_heartbeating,
  signal_heartbeating, tick, stopped, signal_stopping, exit_awaited, become_ready, exit, elsewhere,
  Steps, stay, then_step,
}

-- What the resources that the executor answers make.
created_of :
    {S : Type 0} (config : Config) (reply : Result ExecutorError ExecutorResources) (w : World S)
    (presence : CellPresence)
    → (on_result {E = ExecutorError} {A = ExecutorResources} {B = Result ExecutorError CellPresence}
        reply
        (λ resources. pure (ok (cell_presence config resources)))
        (λ e. pure (err e))
        w).0
      ≡ ok presence
    → (resources : ExecutorResources) × (reply ≡ ok resources)
      × (presence ≡ cell_presence config resources)
created_of config (ok resources) w presence h = (
  resources,
  refl,
  sym (ok-injective {E = ExecutorError} (cell_presence config resources) presence h),
)
created_of config (err e) w presence h = absurd (ground arith)

module _ {S : Type 0} (env : Env S) (config : Config) (w : World S) where
  -- A presence made of the configuration and of the total resources with which the executor answered in
  -- some state of Run.
  pub record IsReported (presence : CellPresence) : Type 0 where
    pub at : Maintainer S
    pub before : Steps env config (new_maintainer w) at
    pub creates : at.phase ≡ creating
    pub resources : ExecutorResources
    pub reported : (env.answer total_resources at.world.outside).0 ≡ ok resources
    pub made : presence ≡ cell_presence config resources

  abbrev Reports : Option Process → Type 0
  Reports none = Unit
  Reports (some p) = IsReported p.presence

  created-IsReported :
      (m : Maintainer S)
      → Steps env config (new_maintainer w) m
      → m.phase ≡ creating
      → (presence : CellPresence) → (create_heartbeater env config m.world).0 ≡ ok presence
      → IsReported presence
  unfolding create_heartbeater
  created-IsReported m steps at presence h =
      let (resources, reported, made) =
        created_of config (env.answer total_resources m.world.outside).0
          (ask env total_resources m.world).1 presence h in
      record {
        at = m;
        before = steps;
        creates = at;
        resources = resources;
        reported = reported;
        made = made;
      }

  after_create-Reports :
      (m : Maintainer S) (reply : Result ExecutorError CellPresence)
      → ((presence : CellPresence) → reply ≡ ok presence → IsReported presence)
      → Reports m.process
      → Reports (after_create reply m).process
  after_create-Reports m (ok presence) made r = made presence refl
  after_create-Reports m (err e) made r = r

  after_heartbeat-Reports :
      (e : Option HeartbeatError) (m : Maintainer S)
      → Reports m.process
      → Reports (after_heartbeat e m).process
  after_heartbeat-Reports none m r = r
  after_heartbeat-Reports (some e) m r = r

  after_tick-Reports :
      (p : Process) (reply : Result ExecutorError (Unit {0})) (m : Maintainer S)
      → m.process ≡ some p
      → Reports m.process
      → Reports (after_tick p reply m).process
  after_tick-Reports p (ok _) m is r = r
  after_tick-Reports p (err _) m is r = subst Reports is r

  Step-Reports :
      {m n : Maintainer S}
      → Steps env config (new_maintainer w) m
      → Reports m.process
      → Step env config m n
      → Reports n.process
  Step-Reports steps r (ping_executor at) = r
  Step-Reports steps r (wake at) = r
  Step-Reports steps r (signal_waiting at) = r
  Step-Reports {m = m} steps r (create at) =
      let (reply, after) = create_heartbeater env config m.world in
      after_create-Reports (record m { world = after }) reply (created-IsReported m steps at) r
  Step-Reports steps r (see_ready at is is_ready) = r
  Step-Reports {m = m} steps r (exit_starting {e = e} at is gone) = after_heartbeat-Reports e m r
  Step-Reports steps r (signal_starting at is) = subst Reports is r
  Step-Reports {m = m} steps r (exit_heartbeating {e = e} at is gone) =
      after_heartbeat-Reports e m r
  Step-Reports steps r (signal_heartbeating at is) = subst Reports is r
  Step-Reports {m = m} steps r (tick {p = p} at is) =
      let (reply, after) = ask env ping m.world in
      after_tick-Reports p reply (record m { world = after }) is r
  Step-Reports {m = m} steps r (stopped at is gone e) = after_heartbeat-Reports (some e) m r
  Step-Reports {m = m} steps r (signal_stopping at) = after_heartbeat-Reports none m r
  Step-Reports {m = m} steps r (exit_awaited at is gone) = after_heartbeat-Reports none m r
  Step-Reports steps r (become_ready is runs) = subst Reports is r
  Step-Reports steps r (exit is runs e) = subst Reports is r
  Step-Reports steps r (elsewhere outside) = r

  Steps-Reports : {m : Maintainer S} → Steps env config (new_maintainer w) m → Reports m.process
  Steps-Reports stay = tt
  Steps-Reports (then_step steps step) = Step-Reports steps (Steps-Reports steps) step

  -- The process that Run started last announces the configuration and the total resources with which the
  -- executor answered when Run created it.
  pub Steps-IsReported :
      {m : Maintainer S} {p : Process}
      → Steps env config (new_maintainer w) m
      → m.process ≡ some p
      → IsReported p.presence
  Steps-IsReported steps is = subst Reports is (Steps-Reports steps)
