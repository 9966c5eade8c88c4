-- ===== src/Cleanup.antt =====
-- evacuation/cleanup.go: what the rep does when it is signalled to exit: it removes the evacuating LRPs
-- that it leaves behind, reports how many they are, stops the containers and waits for them. Logging
-- is left out.
pub mod Calls
pub mod Wait
use rep.Base.{ℕ, not, String, Bool, true, false, List, [], ◌∷◌, Option, none, some}
use rep.Base.Tests.{if◌then◌else◌}
use rep.Services.Polling.{poll}
use rep.Base.Int.{ℤ, pos, ◌+ℤ◌, int64}
use rep.Base.Result.{Result, ok, err}
use rep.Models.{
  ActualLrp, ActualLrpGroup, Container, ContainerState, reserved, initializing, created, running,
  completed, other_state,
}
use rep.Services.{
  BbsError, ExecutorError, Env, M, pure, ask, on_result, ◌>>=◌, ◌>>◌, actual_lrp_groups,
  remove_evacuating_actual_lrp, list_containers, stop_container, send_metric, await_timer,
}

abbrev pub stranded_evacuating_actual_lrps : String
stranded_evacuating_actual_lrps = "StrandedEvacuatingActualLRPs"

module _ {S : Type 0} (env : Env S) where
  -- One round of the loop over the groups, with the count so far.
  unfoldable pub remove_stranded_lrp : ℤ → Option ActualLrp → M S ℤ
  remove_stranded_lrp count none = pure count
  remove_stranded_lrp count (some lrp) = do
    ask env (remove_evacuating_actual_lrp lrp.key lrp.instance_key)
    pure (int64 (count +ℤ pos 1))

  -- The loop over the groups.
  unfoldable pub remove_stranded : ℤ → List ActualLrpGroup → M S ℤ
  unfolding remove_stranded_lrp
  remove_stranded count [] = pure count
  remove_stranded count (group ∷ more) =
      remove_stranded_lrp count group.evacuating_lrp >>= λ counted. remove_stranded counted more

  -- The loop that signals the containers.
  unfoldable pub stop_all : List Container → M S (Unit {0})
  stop_all [] = pure tt
  stop_all (container ∷ more) = ask env (stop_container container.guid) >>= λ _. stop_all more

  -- signalRunningContainers.
  unfoldable pub signal_running_containers : M S (Unit {0})
  unfolding stop_all
  signal_running_containers =
      ask env list_containers >>= λ listed. on_result listed stop_all (λ _. pure tt)

  -- Run, from the signal on, and up to the wait for the containers. The calls of signalRunningContainers,
  -- which is a goroutine beside the wait, stand here in full; that a call hangs, and the exit timer fires
  -- meanwhile, is not modelled.
  unfoldable pub clean_up : String → M S (Result BbsError (Unit {0}))
  unfolding remove_stranded signal_running_containers
  clean_up cell_id = ask env (actual_lrp_groups cell_id) >>= λ fetched.
      on_result fetched
        (λ groups. do
          count ← remove_stranded (pos 0) groups
          ask env (send_metric stranded_evacuating_actual_lrps count)
          signal_running_containers
          pure (ok tt))
        (λ e. pure (err e))

unfoldable pub is_running : ContainerState → Bool
is_running running = true
is_running _ = false

unfoldable pub any_running : List Container → Bool
unfolding is_running
any_running [] = false
any_running (container ∷ more) =
    let rest = any_running more in if is_running container.state then true else rest

-- hasRunningContainers of checkRunningContainers, by what ListContainers answers.
unfoldable pub has_running_containers : Result ExecutorError (List Container) → Bool
unfolding any_running
has_running_containers (ok containers) = any_running containers
has_running_containers (err _) = false

-- 1 * time.Second and ExitTimeout, in nanoseconds.
abbrev pub one_second : ℤ
one_second = pos 1_000_000_000

abbrev pub exit_timeout : ℤ
exit_timeout = pos 15_000_000_000

module _ {S : Type 0} (env : Env S) where
  -- !hasRunningContainers()
  unfoldable pub none_running : M S Bool
  unfolding has_running_containers
  none_running = ask env list_containers >>= λ listed. pure (not (has_running_containers listed))

  -- The loop of checkRunningContainers, for at most `fuel` rounds: whether it has ended, so that
  -- containersStopped is closed.
  unfoldable pub check_running_containers : ℕ → M S Bool
  unfolding none_running
  check_running_containers fuel = poll none_running (ask env (await_timer one_second)) fuel

-- What the last select of Run receives first.
pub data Received : Type 0 where
  exit_timer containers_stopped : Received

pub data CleanupError : Type 0 where
  failed_to_clean_up_all_containers : CleanupError

-- The last select of Run.
unfoldable pub clean_up_result : Received → Result CleanupError (Unit {0})
clean_up_result exit_timer = err failed_to_clean_up_all_containers
clean_up_result containers_stopped = ok tt
