-- ===== src/Processor/Tasks/Completion.antt =====
-- What the processor of tasks reports to the BBS and does with the container.
use rep.Base.{ℕ, String, ◌==◌, ◌≡◌, ◌≤◌, Bool, ◌&&◌, not, List, [], ◌∷◌, arith}
use rep.Base.Tests.{if◌then◌else◌}
use rep.Base.Slices.{length}
use rep.Base.Result.{Result, ok, err}
use rep.Models.{Container, ContainerState, completed, TaskDefinition}
use rep.Conversion.Tags.{tag, result_file_tag}
use rep.Conversion.Runs.{new_run_request_from_task}
use rep.Services.{
  ◌>>=◌, Call, BbsError, invalid_state_transition, resource_not_found, ExecutorError, TarStream,
  Env, World, start_task, task_by_guid, complete_task, fail_task, get_files, delete_container,
  run_container,
}
use rep.Services.Only.{Only, Only-bind-value, Only-on_result, only_rules}
use rep.Delegate.{max_result_size, delete, run, fetch_result_file, FetchError, read_result}
use rep.Delegate.ResultFile.{fetch_result_file-bounded}
use rep.Processor.Tasks.{
  reason_failed_to_run_container, reason_invalid_transition, reason_failed_to_fetch_result,
  is_invalid_transition, is_stale, fail, start, run_started, process_active_container,
  report_complete, report_fetched, complete, process_completed_container, process_state,
}

-- A result that CompleteTask reports has at most `max_result_size` bytes.
abbrev pub BoundsResult : Call → Type 0
BoundsResult (complete_task _ _ _ _ result) = length result ≤ max_result_size
BoundsResult _ = Unit

module _ {S : Type 0} (env : Env S) (cell_id : String) (container : Container) where
  -- The call that completes the task with a result, and those that follow its answer: FailTask on an
  -- invalid state transition.
  abbrev pub completion : List ℕ → Call
  completion result =
      complete_task container.guid cell_id container.run_result.failed
        container.run_result.failure_reason result

  abbrev pub after_completion : Result BbsError (Unit {0}) → List Call → List Call
  after_completion (ok _) calls = calls
  after_completion (err invalid_state_transition) calls =
      fail_task container.guid reason_invalid_transition ∷ calls
  after_completion (err _) calls = calls

  -- The calls of the completion of a task once its result file has been fetched.
  abbrev pub after_fetch : Result FetchError (List ℕ) → S → List Call → List Call
  after_fetch (ok result) s calls =
      after_completion (env.answer (completion result) s).0 (completion result ∷ calls)
  after_fetch (err _) s calls = fail_task container.guid reason_failed_to_fetch_result ∷ calls

  abbrev pub fetched : Result ExecutorError TarStream → Result FetchError (List ℕ)
  fetched (ok stream) = read_result stream
  fetched (err e) = err (FetchError.executor_failed e)

  -- The calls of a completed task, but for the deletion: a result file is fetched only if the task
  -- did not fail and names one.
  abbrev pub completion_calls : World S → List Call
  completion_calls w =
      let file = tag container.tags result_file_tag in
      if not container.run_result.failed && not (file == "")
      then (let reply = env.answer (get_files container.guid file) w.outside in
          after_fetch (fetched reply.0) reply.1 (get_files container.guid file ∷ w.calls))
      else after_fetch (ok []) w.outside w.calls

  complete-calls : (w : World S) → (complete env cell_id container w).1.calls ≡ completion_calls w
  unfolding complete report_complete fail fetch_result_file is_invalid_transition
  complete-calls w = ground arith

  -- A completed task: if it did not fail and names a result file, the file is fetched, and a fetch
  -- that fails fails the task; otherwise the task is completed with the result (empty where there is
  -- no file), and failed if the BBS answers that the transition is invalid. In every case the
  -- container is deleted last.
  pub process_completed_container_task :
      (w : World S)
      → (process_completed_container env cell_id container w).1.calls
        ≡ delete_container container.guid ∷ completion_calls w
  unfolding process_completed_container delete
  process_completed_container_task w = ground (arith, complete-calls w)

  -- The calls once RunContainer has answered for the container of a task.
  abbrev pub after_run : String → Result ExecutorError (Unit {0}) → List Call → List Call
  after_run guid (ok _) calls = calls
  after_run guid (err _) calls =
      fail_task container.guid reason_failed_to_run_container ∷ delete_container guid ∷ calls

  -- The calls once TaskByGuid has answered: the task is run if a run request can be built.
  abbrev pub after_found : Result BbsError TaskDefinition → S → List Call → List Call
  after_found (err _) s calls = calls
  after_found (ok task) s calls = elim (new_run_request_from_task env.lib task) [
    | err _ ↦ calls
    | ok req ↦ after_run req.guid (env.answer (run_container req) s).0 (run_container req ∷ calls)
  ]

  -- The calls once StartTask has answered.
  abbrev pub after_start : Result BbsError Bool → S → List Call → List Call
  after_start (err invalid_state_transition) s calls = delete_container container.guid ∷ calls
  after_start (err resource_not_found) s calls = delete_container container.guid ∷ calls
  after_start (err _) s calls = calls
  after_start (ok changed) s calls =
      if changed
      then (let reply = env.answer (task_by_guid container.guid) s in
          after_found reply.0 reply.1 (task_by_guid container.guid ∷ calls))
      else calls

  -- A task's container that is not completed: StartTask is called first. If it fails, the container is
  -- deleted exactly when the BBS does not know the task or refuses the transition; if the task was
  -- already started, nothing more is called; otherwise the task is fetched and run, and a container
  -- that fails to run is deleted and its task failed.
  pub process_active_container-calls :
      (w : World S)
      → (process_active_container env cell_id container w).1.calls ≡ (
          let reply = env.answer (start_task container.guid cell_id) w.outside in
          after_start reply.0 reply.1 (start_task container.guid cell_id ∷ w.calls))
  unfolding process_active_container start run_started run fail delete is_stale
  process_active_container-calls w = ground arith

  fail-BoundsResult : (reason : String) → Only BoundsResult (fail env container.guid reason)
  unfolding fail
  fail-BoundsResult reason = search only_rules

  report-BoundsResult :
      (result : List ℕ)
      → length result ≤ max_result_size
      → Only BoundsResult (report_complete env cell_id container result)
  unfolding report_complete
  report-BoundsResult result h = search (only_rules, fail-BoundsResult) depth 9

  fetch-BoundsResult : (guid file : String) → Only BoundsResult (fetch_result_file env guid file)
  unfolding fetch_result_file
  fetch-BoundsResult guid file = search only_rules depth 9

  report_fetched-BoundsResult :
      (file : String) (w : World S)
      → Only BoundsResult
          (report_fetched env cell_id container (fetch_result_file env container.guid file w).0)
  unfolding report_fetched
  report_fetched-BoundsResult file w =
      Only-on_result _ _ _
        (λ result e.
          report-BoundsResult result (fetch_result_file-bounded env container.guid file w result e))
        (λ _ _. fail-BoundsResult reason_failed_to_fetch_result)

  fetched-BoundsResult :
      (file : String)
      → Only BoundsResult
          (fetch_result_file env container.guid file >>= report_fetched env cell_id container)
  fetched-BoundsResult file =
      Only-bind-value (fetch_result_file env container.guid file)
        (report_fetched env cell_id container) (fetch-BoundsResult container.guid file)
        (report_fetched-BoundsResult file)

  complete-BoundsResult : Only BoundsResult (complete env cell_id container)
  unfolding complete
  complete-BoundsResult =
      search (only_rules, fetched-BoundsResult, report-BoundsResult [] (omega arith))

  active-BoundsResult : Only BoundsResult (process_active_container env cell_id container)
  unfolding process_active_container start run_started run delete
  active-BoundsResult = search (only_rules, fail-BoundsResult) depth 12

  -- Whatever the state of a task's container and the answers of the executor, CompleteTask is never
  -- called with a result of more than `max_result_size` bytes.
  pub process-BoundsResult :
      (state : ContainerState) → Only BoundsResult (process_state env state cell_id container)
  unfolding process_state process_completed_container delete
  process-BoundsResult completed = search (only_rules, complete-BoundsResult) depth 9
  process-BoundsResult (ContainerState.other_state _) = search only_rules
  process-BoundsResult _ = active-BoundsResult
