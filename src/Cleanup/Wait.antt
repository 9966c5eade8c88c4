-- ===== src/Cleanup/Wait.antt =====
-- When the wait of the cleanup for the containers ends.
use rep.Base.{ℕ, ◌<◌, ◌≡◌, refl, ◌↔◌, true, false, not, List, [], ◌∷◌, arith}
use rep.Base.Slices.{All}
use rep.Base.Result.{Result, ok, err}
use rep.Models.{
  Container, ContainerState, reserved, initializing, created, running, completed, other_state,
}
use rep.Services.{ExecutorError, Env, World, ask, list_containers, await_timer}
use rep.Services.Polling.{in_round, poll-holds, poll-ends}
use rep.Cleanup.{
  one_second, is_running, any_running, has_running_containers, none_running,
  check_running_containers,
}

-- The world of the check of round `k`, if every check before it has found a running container.
abbrev pub at_check : {S : Type 0} → Env S → ℕ → World S → World S
at_check env = in_round (none_running env) (ask env (await_timer one_second))

-- No container is known to run: the executor fails to list the containers, or none of those it lists is
-- running.
abbrev pub NoneRuns : Result ExecutorError (List Container) → Type 0
NoneRuns (ok cs) = All (λ c. ¬ (c.state ≡ running)) cs
NoneRuns (err _) = Unit

is_running_iff : (state : ContainerState) → (is_running state ≡ false) ↔ (¬ (state ≡ running))
unfolding is_running
is_running_iff running = (λ h. cc, λ h. absurd (h refl))
is_running_iff reserved = (λ h e. cc, λ h. refl)
is_running_iff initializing = (λ h e. cc, λ h. refl)
is_running_iff created = (λ h e. cc, λ h. refl)
is_running_iff completed = (λ h e. cc, λ h. refl)
is_running_iff (other_state _) = (λ h e. cc, λ h. refl)

any_running_iff :
    (cs : List Container) → (any_running cs ≡ false) ↔ All (λ c. ¬ (c.state ≡ running)) cs
unfolding any_running
any_running_iff [] = (λ h. tt, λ h. refl)
any_running_iff (c ∷ cs) = (
  λ h. ((is_running_iff c.state).0 (ground arith), (any_running_iff cs).0 (ground arith)),
  λ h. rw ((is_running_iff c.state).1 h.0) ((any_running_iff cs).1 h.1),
)

has_running_iff :
    (r : Result ExecutorError (List Container))
    → (not (has_running_containers r) ≡ true) ↔ NoneRuns r
unfolding has_running_containers
has_running_iff (ok cs) =
    (λ h. (any_running_iff cs).0 (ground arith), λ h. rw ((any_running_iff cs).1 h) refl)
has_running_iff (err e) = (λ h. tt, λ h. refl)

-- The wait for the containers, for at most `fuel` rounds, ends exactly if the check of some round within
-- the fuel finds none running, which a check that fails does.
pub check_running_containers-ends :
    {S : Type 0} (env : Env S) (w : World S) (fuel : ℕ)
    → ((check_running_containers env fuel w).0 ≡ true)
      ↔ ((k : ℕ) × (k < fuel) × NoneRuns (env.answer list_containers (at_check env k w).outside).0)
unfolding check_running_containers none_running
check_running_containers-ends env w fuel =
    let test = none_running env in
    let wait = ask env (await_timer one_second) in
    (
      λ h.
          let (k, lt, holds) = poll-holds test wait fuel w h in
          (k, lt, (has_running_iff _).0 holds),
      λ (k, lt, h). (poll-ends test wait k w ((has_running_iff _).1 h) fuel lt).0,
    )
