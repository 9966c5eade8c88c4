-- ===== src/Processor/TaskScope.antt =====
-- Which container and which task the processor of tasks touches.
use rep.Base.{String, ◌≡◌, refl, ◌∙◌, arith}
use rep.Base.Result.{ok}
use rep.Models.{Container, ContainerState, TaskDefinition, RunRequest, completed, other_state}
use rep.Conversion.Runs.{new_run_request_from_task}
use rep.Services.{Env, Library, pure, on_result, ◌>>=◌, task_by_guid}
use rep.Services.Only.{Only, Only-pure, Only-on_result, Only-ask-bind, only_rules}
use rep.Delegate.{run}
use rep.Processor.Tasks
use rep.Base.Tests.{if◌then◌else◌}
use rep.Processor.Concerns.{Concerns, delegate_rules, run-Concerns}

-- TaskByGuid answers with the task that was asked for.
abbrev pub FindsTask : {S : Type 0} → Env S → Type 0
FindsTask {S} env =
    (guid : String) (s : S) (task : TaskDefinition)
    → (env.answer (task_by_guid guid) s).0 ≡ ok task
    → task.task_guid ≡ guid

new_run_request_from_task_guid :
    (lib : Library) (task : TaskDefinition) (req : RunRequest)
    → new_run_request_from_task lib task ≡ ok req
    → req.guid ≡ task.task_guid
unfolding new_run_request_from_task
new_run_request_from_task_guid lib task req h = ground arith

-- The task processor, where the BBS finds the task that it is asked for.
module _ {S : Type 0} (env : Env S) (finds : FindsTask env) (container : Container)
    (inst : String) where
  fail-Concerns :
      (reason : String) → Only (Concerns container.guid inst) (Tasks.fail env container.guid reason)
  unfolding Tasks.fail
  fail-Concerns reason = search only_rules

  start-Concerns :
      (cell_id : String)
      → Only (Concerns container.guid inst) (Tasks.start env cell_id container.guid)
  unfolding Tasks.start
  start-Concerns cell_id = search delegate_rules depth 9

  run_or_fail-Concerns :
      (req : RunRequest)
      → req.guid ≡ container.guid
      → Only (Concerns container.guid inst) (
          run env req >>= λ is_running.
          if is_running
          then pure tt
          else Tasks.fail env container.guid Tasks.reason_failed_to_run_container)
  run_or_fail-Concerns req e = search (only_rules, run-Concerns, fail-Concerns)

  run_found-Concerns :
      (task : TaskDefinition)
      → task.task_guid ≡ container.guid
      → Only (Concerns container.guid inst) (Tasks.run_found env container task)
  unfolding Tasks.run_found
  run_found-Concerns task e =
      Only-on_result _ _ _
        (λ req made.
          run_or_fail-Concerns req (new_run_request_from_task_guid env.lib task req made ∙ e))
        (λ _ _. Only-pure tt)

  run_started-Concerns : Only (Concerns container.guid inst) (Tasks.run_started env container)
  unfolding Tasks.run_started
  run_started-Concerns =
      Only-ask-bind env (task_by_guid container.guid)
        (λ found. on_result found (Tasks.run_found env container) (λ _. pure tt)) refl
        λ s.
          Only-on_result _ _ _
            (λ task found. run_found-Concerns task (finds container.guid s task found))
            (λ _ _. Only-pure tt)

  complete-Concerns :
      (cell_id : String)
      → Only (Concerns container.guid inst) (Tasks.complete env cell_id container)
  unfolding Tasks.complete Tasks.report_complete
  complete-Concerns cell_id = search (delegate_rules, fail-Concerns) depth 9

  task_state-Concerns :
      (state : ContainerState) (cell_id : String)
      → Only (Concerns container.guid inst) (Tasks.process_state env state cell_id container)
  unfolding Tasks.process_state Tasks.process_active_container Tasks.process_completed_container
  task_state-Concerns completed cell_id = search (delegate_rules, complete-Concerns) depth 9
  task_state-Concerns (other_state _) cell_id = search only_rules
  task_state-Concerns _ cell_id = search (only_rules, start-Concerns, run_started-Concerns) depth 9

  -- Processing the container of a task, in whatever state, makes calls about that container and
  -- the task of the same guid alone, if TaskByGuid answers with the task that was asked for.
  pub process_task-Concerns :
      (cell_id : String) → Only (Concerns container.guid inst) (Tasks.process env cell_id container)
  unfolding Tasks.process
  process_task-Concerns cell_id = task_state-Concerns container.state cell_id
