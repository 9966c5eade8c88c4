-- ===== src/Processor/Tasks.antt =====
-- generator/internal/task_processor.go: what the rep does with the container of a task. Logging is
-- left out.
pub mod Completion
use rep.Base.{ℕ, String, ◌==◌, Bool, true, false, ◌&&◌, not, List, []}
use rep.Base.Tests.{if◌then◌else◌}
use rep.Base.Result.{Result, ok, err}
use rep.Models.{
  Container, ContainerState, TaskDefinition, reserved, initializing, created, running, completed,
  other_state,
}
use rep.Conversion.Tags.{tag, result_file_tag}
use rep.Conversion.Runs.{new_run_request_from_task}
use rep.Services.{
  BbsError, invalid_state_transition, resource_not_found, Env, M, pure, ask, on_result, ◌>>=◌, ◌>>◌,
  start_task, task_by_guid, complete_task, fail_task,
}
use rep.Delegate.{FetchError, delete, run, fetch_result_file}

abbrev pub reason_missing_container : String
reason_missing_container = "task container does not exist"

abbrev pub reason_failed_to_run_container : String
reason_failed_to_run_container = "failed to run container"

abbrev pub reason_invalid_transition : String
reason_invalid_transition = "invalid state transition"

abbrev pub reason_failed_to_fetch_result : String
reason_failed_to_fetch_result = "failed to fetch result"

-- bbsErr.Type == models.Error_InvalidStateTransition.
unfoldable pub is_invalid_transition : BbsError → Bool
is_invalid_transition invalid_state_transition = true
is_invalid_transition _ = false

-- The errors of StartTask on which the container is deleted.
unfoldable pub is_stale : BbsError → Bool
is_stale invalid_state_transition = true
is_stale resource_not_found = true
is_stale _ = false

module _ {S : Type 0} (env : Env S) where
  unfoldable pub fail : String → String → M S (Unit {0})
  fail guid reason = do ask env (fail_task guid reason); pure tt

  unfoldable pub start : String → String → M S Bool
  start cell_id guid = do
    started ← ask env (start_task guid cell_id)
    on_result started (λ changed. pure changed)
        (λ e. if is_stale e then (do delete env guid; pure false) else pure false)

  -- The end of processActiveContainer, from the run request on.
  unfoldable pub run_found : Container → TaskDefinition → M S (Unit {0})
  run_found container task =
      on_result (new_run_request_from_task env.lib task)
        (λ run_req. do
          is_running ← run env run_req
          if is_running then pure tt else fail container.guid reason_failed_to_run_container)
        (λ _. pure tt)

  -- The same, from the fetch of the task on.
  unfoldable pub run_started : Container → M S (Unit {0})
  unfolding run_found
  run_started container = do
    found ← ask env (task_by_guid container.guid)
    on_result found (run_found container) (λ _. pure tt)

  unfoldable pub process_active_container : String → Container → M S (Unit {0})
  process_active_container cell_id container = do
    changed ← start cell_id container.guid
    if changed then run_started container else pure tt

  -- The end of completeTask, from CompleteTask on.
  unfoldable pub report_complete : String → Container → List ℕ → M S (Unit {0})
  report_complete cell_id container result = do
    reported ← ask env (
        complete_task container.guid cell_id container.run_result.failed
          container.run_result.failure_reason result)
    on_result reported (λ _. pure tt)
        (λ e.
          if is_invalid_transition e
          then fail container.guid reason_invalid_transition
          else pure tt)

  -- completeTask once the result file has been fetched, or not.
  unfoldable pub report_fetched : String → Container → Result FetchError (List ℕ) → M S (Unit {0})
  report_fetched cell_id container fetched =
      on_result fetched (λ result. report_complete cell_id container result)
        (λ _. fail container.guid reason_failed_to_fetch_result)

  -- completeTask.
  unfoldable pub complete : String → Container → M S (Unit {0})
  unfolding report_fetched
  complete cell_id container =
      let result_file = tag container.tags result_file_tag in
      if not container.run_result.failed && not (result_file == "")
      then fetch_result_file env container.guid result_file >>= report_fetched cell_id container
      else report_complete cell_id container []

  unfoldable pub process_completed_container : String → Container → M S (Unit {0})
  process_completed_container cell_id container = do
    complete cell_id container
    delete env container.guid
    pure tt

  -- The switch of Process on the container's state.
  unfoldable pub process_state : ContainerState → String → Container → M S (Unit {0})
  process_state reserved cell_id container = process_active_container cell_id container
  process_state initializing cell_id container = process_active_container cell_id container
  process_state created cell_id container = process_active_container cell_id container
  process_state running cell_id container = process_active_container cell_id container
  process_state completed cell_id container = process_completed_container cell_id container
  process_state (other_state _) cell_id container = pure tt

  unfoldable pub process : String → Container → M S (Unit {0})
  process cell_id container = process_state container.state cell_id container
