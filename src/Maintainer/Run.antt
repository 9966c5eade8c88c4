-- ===== src/Maintainer/Run.antt =====
-- Invariants of the maintainer's Run, however it interleaves with its heartbeat process.
use rep.Base.{◌≡◌, refl, ◌∙◌, ◌⊎◌, inl, inr, ◌≤◌, true, false, Option, none, some, ◌||◌, arith}
use rep.Base.Result.{Result, ok, err}
use rep.Services.{ExecutorError, Env, World, ask, ping, await_timer}
use rep.Maintainer.{
  Config, CellPresence, Phase, pinging, creating, stopping, awaiting_exit, returned, HeartbeatError,
  signaled_while_waiting, no_resources, Process, Maintainer, new_maintainer, create_heartbeater,
  executor_poll_interval, after_ping, after_create, after_heartbeat, after_tick, Step,
  ping_executor, wake, signal_waiting, create, see_ready, exit_starting, signal_starting,
  exit_heartbeating, signal_heartbeating, tick, stopped, signal_stopping, exit_awaited,
  become_ready, exit, elsewhere, Steps, stay, then_step,
}
use rep.Maintainer.Phases.{is_idle, is_starting, has_returned, live, is_told, live-le}

module _ {S : Type 0} (env : Env S) (config : Config) where
  pub record IsSound (m : Maintainer S) : Type 0 where
    once : m.closes ≤ 1
    pub unclosed : is_idle m.phase || is_starting m.phase ≡ true → m.ready ≡ true → m.closes ≡ 0
    counted : m.alive ≡ live m.process
    idle : is_idle m.phase ≡ true → live m.process ≡ 0
    told : m.phase ≡ stopping → is_told m.process ≡ true
    left : has_returned m.phase ≡ true → (live m.process ≡ 0) ⊎ (is_told m.process ≡ true)

  at-idle :
      {m : Maintainer S}
      → IsSound m
      → is_idle m.phase ≡ true
      → (phase : Phase) → is_idle phase || has_returned phase ≡ true
      → (w : World S) → IsSound (record m { phase = phase; world = w })
  at-idle s now_idle phase then_idle w = record {
    once = s.once;
    unclosed = λ h r. s.unclosed (ground arith) r;
    counted = s.counted;
    idle = λ h. s.idle now_idle;
    told = λ h. ground arith;
    left = λ h. inl (s.idle now_idle);
  }

  -- The return of heartbeat.
  after_heartbeat-IsSound :
      {m : Maintainer S}
      → IsSound m
      → (live m.process ≡ 0)
      → (e : Option HeartbeatError) → IsSound (after_heartbeat e m)
  after_heartbeat-IsSound s exited none = record {
    once = s.once;
    unclosed = λ h r. cc;
    counted = s.counted;
    idle = λ h. exited;
    told = λ h. cc;
    left = λ h. inl exited;
  }
  after_heartbeat-IsSound s exited (some e) = record {
    once = s.once;
    unclosed = λ h r. cc;
    counted = s.counted;
    idle = λ h. exited;
    told = λ h. cc;
    left = λ h. inl exited;
  }

  after_create-IsSound :
      {m : Maintainer S}
      → IsSound m
      → m.phase ≡ creating
      → (reply : Result ExecutorError CellPresence) (w : World S)
      → IsSound (after_create reply (record m { world = w }))
  after_create-IsSound s at (ok presence) w = record {
    once = s.once;
    unclosed = λ h r. s.unclosed (rw at refl) r;
    counted = ground (arith, s.counted, s.idle (rw at refl));
    idle = λ h. cc;
    told = λ h. cc;
    left = λ h. cc;
  }
  after_create-IsSound s at (err e) w =
      at-idle s (rw at refl) (returned (some (no_resources e))) refl w

  -- A step that sends a signal to the process.
  told-IsSound :
      {m : Maintainer S} {p : Process}
      → IsSound m
      → m.process ≡ some p
      → (phase : Phase) (w : World S) → is_idle phase || is_starting phase ≡ false
      → IsSound
          (record m { phase = phase; process = some (record p { signaled = true }); world = w })
  told-IsSound s at phase w apart = record {
    once = s.once;
    unclosed = λ h r. ground arith;
    counted = ground (arith, s.counted, at);
    idle = λ h. ground arith;
    told = λ h. refl;
    left = λ h. inr refl;
  }

  after_tick-IsSound :
      {m : Maintainer S} {p : Process}
      → IsSound m
      → m.process ≡ some p
      → (reply : Result ExecutorError (Unit {0})) (w : World S)
      → IsSound (after_tick p reply (record m { world = w }))
  after_tick-IsSound s at (ok _) w = record {
    once = s.once;
    unclosed = s.unclosed;
    counted = s.counted;
    idle = s.idle;
    told = s.told;
    left = s.left;
  }
  after_tick-IsSound s at (err e) w = told-IsSound s at stopping w refl

  exited-live :
      {process : Option Process} {p : Process} {e : Option HeartbeatError}
      → process ≡ some p
      → p.exit ≡ some e
      → live process ≡ 0
  exited-live at gone = rw at (rw gone refl)

  Step-IsSound : {m n : Maintainer S} → IsSound m → Step env config m n → IsSound n
  Step-IsSound {m = m} s (ping_executor at) =
      at-idle s (rw at refl) (after_ping (ask env ping m.world).0) (ground arith)
        (ask env ping m.world).1
  Step-IsSound {m = m} s (wake at) =
      at-idle s (rw at refl) pinging refl (ask env (await_timer executor_poll_interval) m.world).1
  Step-IsSound {m = m} s (signal_waiting at) =
      at-idle s (rw at refl) (returned (some signaled_while_waiting)) refl m.world
  Step-IsSound {m = m} s (create at) =
      after_create-IsSound s at (create_heartbeater env config m.world).0
        (create_heartbeater env config m.world).1
  Step-IsSound s (see_ready at some_process is_ready) = record {
    once = ground (arith, s.once, s.unclosed (rw at refl));
    unclosed = λ h r. cc;
    counted = s.counted;
    idle = λ h. cc;
    told = λ h. cc;
    left = λ h. cc;
  }
  Step-IsSound s (exit_starting {e = e} at is gone) =
      after_heartbeat-IsSound s (exited-live is gone) e
  Step-IsSound {m = m} s (signal_starting at is) = told-IsSound s is awaiting_exit m.world refl
  Step-IsSound s (exit_heartbeating {e = e} at is gone) =
      after_heartbeat-IsSound s (exited-live is gone) e
  Step-IsSound {m = m} s (signal_heartbeating at is) = told-IsSound s is awaiting_exit m.world refl
  Step-IsSound {m = m} s (tick at is) =
      after_tick-IsSound s is (ask env ping m.world).0 (ask env ping m.world).1
  Step-IsSound s (stopped at is gone ping_error) =
      after_heartbeat-IsSound s (exited-live is gone) (some ping_error)
  Step-IsSound s (signal_stopping at) = record {
    once = s.once;
    unclosed = λ h r. cc;
    counted = s.counted;
    idle = λ h. cc;
    told = λ h. cc;
    left = λ h. inr (s.told at);
  }
  Step-IsSound s (exit_awaited at is gone) = after_heartbeat-IsSound s (exited-live is gone) none
  Step-IsSound s (become_ready is runs) = record {
    once = s.once;
    unclosed = s.unclosed;
    counted = rw is at s.counted;
    idle = λ h. rw is at s.idle h;
    told = λ h. rw is at s.told h;
    left = λ h. rw is at s.left h;
  }
  Step-IsSound s (exit is runs e) = record {
    once = s.once;
    unclosed = s.unclosed;
    counted = ground (arith, s.counted, is, runs);
    idle = λ h. refl;
    told = λ h. rw is at s.told h;
    left = λ h. inl refl;
  }
  Step-IsSound s (elsewhere outside) = record {
    once = s.once;
    unclosed = s.unclosed;
    counted = s.counted;
    idle = s.idle;
    told = s.told;
    left = s.left;
  }

  pub Steps-IsSound :
      (w : World S) {m : Maintainer S} → Steps env config (new_maintainer w) m → IsSound m
  Steps-IsSound w stay = record {
    once = omega arith;
    unclosed = λ h r. refl;
    counted = refl;
    idle = λ h. refl;
    told = λ h. cc;
    left = λ h. inl refl;
  }
  Steps-IsSound w (then_step steps step) = Step-IsSound (Steps-IsSound w steps) step

  -- However Run interleaves with its heartbeat processes, it closes its ready channel at most once and
  -- never has two processes running; and when it has returned, no process runs unless Run sent it a signal.
  pub Steps-safe :
      (w : World S) {m : Maintainer S}
      → Steps env config (new_maintainer w) m
      → (m.closes ≤ 1)
        × (m.alive ≤ 1)
        × (has_returned m.phase ≡ true → (m.alive ≡ 0) ⊎ (is_told m.process ≡ true))
  Steps-safe w {m = m} steps =
      let s = Steps-IsSound w steps in
      (
        s.once,
        ground (arith, s.counted, live-le m.process),
        λ h. elim (s.left h) [ inl gone ↦ inl (s.counted ∙ gone) | inr told ↦ inr told ],
      )
