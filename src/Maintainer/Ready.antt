-- ===== src/Maintainer/Ready.antt =====
-- What becomes of the maintainer's ready channel once its variable is nil.
use rep.Base.{◌≡◌, refl, ◌∙◌, true, false, Option, none, some}
use rep.Base.Result.{Result, ok, err}
use rep.Services.{ExecutorError, Env, World, ask, ping}
use rep.Maintainer.{
  Config, CellPresence, starting, HeartbeatError, Process, Maintainer, new_maintainer,
  create_heartbeater, after_create, after_heartbeat, after_tick, Step, ping_executor, wake,
  signal_waiting, create, see_ready, exit_starting, signal_starting, exit_heartbeating,
  signal_heartbeating, tick, stopped, signal_stopping, exit_awaited, become_ready, exit, elsewhere,
  Steps, stay, then_step,
}
use rep.Maintainer.Run.{Steps-IsSound}

module _ {S : Type 0} (env : Env S) (config : Config) where
  after_create-unready :
      (reply : Result ExecutorError CellPresence) (m : Maintainer S)
      → ((after_create reply m).ready ≡ m.ready) × ((after_create reply m).closes ≡ m.closes)
  after_create-unready (ok _) m = (refl, refl)
  after_create-unready (err _) m = (refl, refl)

  after_tick-unready :
      (p : Process) (reply : Result ExecutorError (Unit {0})) (m : Maintainer S)
      → ((after_tick p reply m).ready ≡ m.ready) × ((after_tick p reply m).closes ≡ m.closes)
  after_tick-unready p (ok _) m = (refl, refl)
  after_tick-unready p (err _) m = (refl, refl)

  after_heartbeat-unready :
      (e : Option HeartbeatError) (m : Maintainer S)
      → ((after_heartbeat e m).ready ≡ false) × ((after_heartbeat e m).closes ≡ m.closes)
  after_heartbeat-unready none m = (refl, refl)
  after_heartbeat-unready (some _) m = (refl, refl)

  -- `ready` is not given back.
  Step-unready :
      {m n : Maintainer S}
      → m.ready ≡ false
      → Step env config m n
      → (n.ready ≡ false) × (n.closes ≡ m.closes)
  Step-unready unready (ping_executor at) = (unready, refl)
  Step-unready unready (wake at) = (unready, refl)
  Step-unready unready (signal_waiting at) = (unready, refl)
  Step-unready {m = m} unready (create at) =
      let reply = (create_heartbeater env config m.world).0 in
      let (r, c) =
        after_create-unready reply
          (record m { world = (create_heartbeater env config m.world).1 }) in
      (r ∙ unready, c)
  Step-unready unready (see_ready at is is_ready) = (unready, rw unready refl)
  Step-unready {m = m} unready (exit_starting {e = e} at is gone) = after_heartbeat-unready e m
  Step-unready unready (signal_starting at is) = (unready, refl)
  Step-unready {m = m} unready (exit_heartbeating {e = e} at is gone) = after_heartbeat-unready e m
  Step-unready unready (signal_heartbeating at is) = (unready, refl)
  Step-unready {m = m} unready (tick {p = p} at is) =
      let (r, c) =
        after_tick-unready p (ask env ping m.world).0
          (record m { world = (ask env ping m.world).1 }) in
      (r ∙ unready, c)
  Step-unready unready (stopped at is gone ping_error) = (refl, refl)
  Step-unready unready (signal_stopping at) = (refl, refl)
  Step-unready unready (exit_awaited at is gone) = (refl, refl)
  Step-unready unready (become_ready is runs) = (unready, refl)
  Step-unready unready (exit is runs e) = (unready, refl)
  Step-unready unready (elsewhere outside) = (unready, refl)

  Steps-unready :
      {m n : Maintainer S}
      → m.ready ≡ false
      → Steps env config m n
      → (n.ready ≡ false) × (n.closes ≡ m.closes)
  Steps-unready unready stay = (unready, refl)
  Steps-unready unready (then_step steps step) =
      let (r, c) = Steps-unready unready steps in let (r', c') = Step-unready r step in (r', c' ∙ c)

  -- If the first heartbeat process exits before Run has seen that it is ready, Run's ready channel is never
  -- closed, whatever the later heartbeat processes do: Run has set its `ready` to nil.
  pub failed_start-closes :
      (w : World S) {m n : Maintainer S}
      → Steps env config (new_maintainer w) m
      → m.phase ≡ starting
      → m.ready ≡ true
      → (e : Option HeartbeatError) → Steps env config (after_heartbeat e m) n
      → n.closes ≡ 0
  failed_start-closes w {m = m} steps at first e after =
      let (unready, same) = after_heartbeat-unready e m in
      (Steps-unready unready after).1
      ∙ same
      ∙ (Steps-IsSound env config w steps).unclosed (rw at refl) first
