-- ===== src/Evacuator.antt =====
-- evacuation/evacuation.go: the evacuator, which waits for the evacuation of the cell and then polls the
-- executor until no container is left, a timeout or a signal. Logging is left out. Its loop and its
-- Run are two goroutines; each step of one is a step of the evacuator, and the world may change between.
pub mod Loop
pub mod Outcomes
pub mod Drained
use rep.Base.{ℕ, ◌≡◌, Bool, true, false, List, [], ◌∷◌}
use rep.Base.Int.{ℤ}
use rep.Base.Result.{Result, ok, err}
use rep.Models.{Container}
use rep.Services.{
  ExecutorError, Env, World, M, pure, ask, on_result, ◌>>=◌, list_containers, await_timer,
}
use rep.Services.Polling.{poll}

-- len(containers) == 0
unfoldable pub is_empty : List Container → Bool
is_empty [] = true
is_empty (_ ∷ _) = false

module _ {S : Type 0} (env : Env S) where
  unfoldable pub all_containers_evacuated : M S Bool
  unfolding is_empty
  all_containers_evacuated = ask env list_containers >>= λ listed.
      on_result listed (λ containers. pure (is_empty containers)) (λ _. pure false)

  -- evacuate, for at most `fuel` rounds: whether it has closed doneCh.
  unfoldable pub evacuate_all : ℤ → ℕ → M S Bool
  evacuate_all polling_interval fuel =
      poll all_containers_evacuated (ask env (await_timer polling_interval)) fuel

-- The ways in which Run returns; its error is nil in all of them.
pub data Outcome : Type 0 where
  signaled_before complete timed_out signaled : Outcome

-- Where Run stands: at its first select, at its second, or returned.
pub data Phase : Type 0 where
  waiting evacuating_cell : Phase
  returned : Outcome → Phase

-- Where the goroutine of evacuate stands.
pub data Poller : Type 0 where
  not_started checking sleeping done : Poller

pub record Evacuator (S : Type 0) : Type 0 where
  pub phase : Phase
  pub poller : Poller
  pub world : World S

abbrev pub ready : {S : Type 0} → World S → Evacuator S
ready w = record { phase = waiting; poller = not_started; world = w }

abbrev pub checked : Bool → Poller
checked true = done
checked false = sleeping

pub data Step {S : Type 0} (env : Env S) (polling_interval : ℤ) (e : Evacuator S)
    : Evacuator S → Type 0 where
  signal_first :
      e.phase ≡ waiting
      → Step env polling_interval e (record e { phase = returned signaled_before })
  notify :
      e.phase ≡ waiting
      → Step env polling_interval e (record e { phase = evacuating_cell; poller = checking })
  check :
      e.poller ≡ checking
      → Step env polling_interval e (record e {
        poller = checked (all_containers_evacuated env e.world).0;
        world = (all_containers_evacuated env e.world).1;
      })
  wake :
      e.poller ≡ sleeping
      → Step env polling_interval e (record e {
        poller = checking;
        world = (ask env (await_timer polling_interval) e.world).1;
      })
  finish :
      e.phase ≡ evacuating_cell
      → e.poller ≡ done
      → Step env polling_interval e (record e { phase = returned complete })
  time_out :
      e.phase ≡ evacuating_cell
      → Step env polling_interval e (record e { phase = returned timed_out })
  signal :
      e.phase ≡ evacuating_cell
      → Step env polling_interval e (record e { phase = returned signaled })
  -- something else in the world changes
  elsewhere :
      (s : S) → Step env polling_interval e (record e { world = record e.world { outside = s } })

pub data Steps {S : Type 0} (env : Env S) (polling_interval : ℤ) (e : Evacuator S)
    : Evacuator S → Type 0 where
  stay : Steps env polling_interval e e
  then_step :
      {f g : Evacuator S}
      → Steps env polling_interval e f
      → Step env polling_interval f g
      → Steps env polling_interval e g
