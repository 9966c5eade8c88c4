-- ===== src/Maintainer/Stops.antt =====
-- Run of the maintainer can be stopped, wherever it stands.
use rep.Base.{◌≡◌, refl, true, false, Option, none, some, ◌||◌}
use rep.Base.Result.{Result, ok, err}
use rep.Services.{ExecutorError, Env, World, ask, ping}
use rep.Maintainer.{
  Config, CellPresence, Phase, pinging, sleeping, creating, starting, heartbeating, stopping,
  awaiting_exit, returned, HeartbeatError, MaintainError, Process, Maintainer, new_maintainer,
  started, create_heartbeater, after_ping, after_create, after_heartbeat, after_tick, Step,
  ping_executor, wake, signal_waiting, create, see_ready, exit_starting, signal_starting,
  exit_heartbeating, signal_heartbeating, tick, stopped, signal_stopping, exit_awaited,
  become_ready, exit, elsewhere, Steps, stay, then_step,
}
use rep.Maintainer.Phases.{is_idle, has_returned}

-- Within heartbeat there is a process.
abbrev HasProcess : Phase → Option Process → Type 0
HasProcess phase process =
    is_idle phase || has_returned phase ≡ false → (p : Process) × (process ≡ some p)

module _ {S : Type 0} (env : Env S) (config : Config) where
  after_ping-HasProcess :
      (r : Result ExecutorError (Unit {0})) (process : Option Process)
      → HasProcess (after_ping r) process
  after_ping-HasProcess (ok u) process h = cc
  after_ping-HasProcess (err e) process h = cc

  after_create-HasProcess :
      (r : Result ExecutorError CellPresence) (m : Maintainer S)
      → HasProcess (after_create r m).phase (after_create r m).process
  after_create-HasProcess (ok presence) m h = (started presence, refl)
  after_create-HasProcess (err e) m h = cc

  after_heartbeat-HasProcess :
      (e : Option HeartbeatError) (m : Maintainer S)
      → HasProcess (after_heartbeat e m).phase (after_heartbeat e m).process
  after_heartbeat-HasProcess none m h = cc
  after_heartbeat-HasProcess (some e) m h = cc

  after_tick-HasProcess :
      (p : Process) (r : Result ExecutorError (Unit {0})) (m : Maintainer S)
      → m.process ≡ some p
      → HasProcess (after_tick p r m).phase (after_tick p r m).process
  after_tick-HasProcess p (ok u) m is h = (p, is)
  after_tick-HasProcess p (err e) m is h = (record p { signaled = true }, refl)

  Step-HasProcess :
      {m n : Maintainer S}
      → HasProcess m.phase m.process
      → Step env config m n
      → HasProcess n.phase n.process
  Step-HasProcess {m} has (ping_executor at) =
      after_ping-HasProcess (ask env ping m.world).0 m.process
  Step-HasProcess has (wake at) = λ h. cc
  Step-HasProcess has (signal_waiting at) = λ h. cc
  Step-HasProcess {m} has (create at) =
      after_create-HasProcess (create_heartbeater env config m.world).0
        (record m { world = (create_heartbeater env config m.world).1 })
  Step-HasProcess has (see_ready {p = p} at is now) = λ h. (p, is)
  Step-HasProcess {m} has (exit_starting {e = e} at is exited) = after_heartbeat-HasProcess e m
  Step-HasProcess has (signal_starting {p = p} at is) = λ h. (record p { signaled = true }, refl)
  Step-HasProcess {m} has (exit_heartbeating {e = e} at is exited) = after_heartbeat-HasProcess e m
  Step-HasProcess has (signal_heartbeating {p = p} at is) =
      λ h. (record p { signaled = true }, refl)
  Step-HasProcess {m} has (tick {p = p} at is) =
      after_tick-HasProcess p (ask env ping m.world).0
        (record m { world = (ask env ping m.world).1 }) is
  Step-HasProcess {m} has (stopped at is exited error) = after_heartbeat-HasProcess (some error) m
  Step-HasProcess {m} has (signal_stopping at) = after_heartbeat-HasProcess none m
  Step-HasProcess {m} has (exit_awaited at is exited) = after_heartbeat-HasProcess none m
  Step-HasProcess has (become_ready {p = p} is running) = λ h. (record p { is_ready = true }, refl)
  Step-HasProcess has (exit {p = p} is running e) = λ h. (record p { exit = some e }, refl)
  Step-HasProcess has (elsewhere s) = has

  Steps-HasProcess :
      (w : World S) {m : Maintainer S}
      → Steps env config (new_maintainer w) m
      → HasProcess m.phase m.process
  Steps-HasProcess w stay = λ h. cc
  Steps-HasProcess w (then_step steps step) = Step-HasProcess (Steps-HasProcess w steps) step

  -- Further steps with which Run returns.
  abbrev Stops : Maintainer S → Type 0
  Stops m =
      (n : Maintainer S) × (e : Option MaintainError) × Steps env config m n
      × (n.phase ≡ returned e)

  Steps-trans :
      {m n o : Maintainer S} → Steps env config m n → Steps env config n o → Steps env config m o
  Steps-trans s stay = s
  Steps-trans s (then_step t step) = then_step (Steps-trans s t) step

  Step-Stops : {m n : Maintainer S} → Step env config m n → Stops n → Stops m
  Step-Stops step (o, e, steps, at) = (o, e, Steps-trans (then_step stay step) steps, at)

  awaiting_exit-Stops :
      (m : Maintainer S) (p : Process) (exited : Option (Option HeartbeatError))
      → m.phase ≡ awaiting_exit
      → m.process ≡ some p
      → p.exit ≡ exited
      → Stops m
  awaiting_exit-Stops m p (some e) at is x =
      (after_heartbeat none m, none, then_step stay (exit_awaited at is x), refl)
  awaiting_exit-Stops m p none at is x =
      Step-Stops (exit is x none)
        (_, none, then_step stay (exit_awaited {e = none} at refl refl), refl)

  starting-Stops :
      (m : Maintainer S) (p : Process) → m.phase ≡ starting → m.process ≡ some p → Stops m
  starting-Stops m p at is =
      Step-Stops (signal_starting at is) (awaiting_exit-Stops _ _ p.exit refl refl refl)

  heartbeating-Stops :
      (m : Maintainer S) (p : Process) → m.phase ≡ heartbeating → m.process ≡ some p → Stops m
  heartbeating-Stops m p at is =
      Step-Stops (signal_heartbeating at is) (awaiting_exit-Stops _ _ p.exit refl refl refl)

  after_create-Stops :
      (r : Result ExecutorError CellPresence) (m : Maintainer S) → Stops (after_create r m)
  after_create-Stops (ok presence) m = starting-Stops _ (started presence) refl refl
  after_create-Stops (err e) m = (_, _, stay, refl)

  creating-Stops : (m : Maintainer S) → m.phase ≡ creating → Stops m
  creating-Stops m at = Step-Stops (create at) (after_create-Stops _ _)

  after_ping-Stops :
      (r : Result ExecutorError (Unit {0})) (m : Maintainer S) → m.phase ≡ after_ping r → Stops m
  after_ping-Stops (ok u) m at = creating-Stops m at
  after_ping-Stops (err e) m at = (_, _, then_step stay (signal_waiting at), refl)

  phase-Stops :
      (m : Maintainer S) (phase : Phase) → HasProcess m.phase m.process → m.phase ≡ phase → Stops m
  phase-Stops m pinging has at = Step-Stops (ping_executor at) (after_ping-Stops _ _ refl)
  phase-Stops m sleeping has at = (_, _, then_step stay (signal_waiting at), refl)
  phase-Stops m creating has at = creating-Stops m at
  phase-Stops m starting has at = let (p, is) = has (rw at refl) in starting-Stops m p at is
  phase-Stops m heartbeating has at = let (p, is) = has (rw at refl) in heartbeating-Stops m p at is
  phase-Stops m stopping has at = (_, _, then_step stay (signal_stopping at), refl)
  phase-Stops m awaiting_exit has at =
      let (p, is) = has (rw at refl) in awaiting_exit-Stops m p p.exit at is refl
  phase-Stops m (returned e) has at = (m, e, stay, at)

  -- Whatever has happened since Run started, it is not stuck: whichever state it and its heartbeat process
  -- have reached, there are further steps with which Run returns.
  pub Steps-returns :
      (w : World S) (m : Maintainer S)
      → Steps env config (new_maintainer w) m
      → (n : Maintainer S) × (e : Option MaintainError) × Steps env config m n
        × (n.phase ≡ returned e)
  Steps-returns w m steps = phase-Stops m m.phase (Steps-HasProcess w steps) refl
