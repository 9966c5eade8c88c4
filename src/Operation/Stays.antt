-- ===== src/Operation/Stays.antt =====
-- What every operation leaves true of the outside world.
use rep.Base.{ℕ, String, Option, none, some}
use rep.Models.{
  Container, ContainerState, reserved, initializing, created, running, completed, other_state,
  RunRequest,
}
use rep.Services.{Env, M}
use rep.Services.Stays.{IsKept, Stays, Stays-pure, stays_rules}
use rep.Delegate.{fetch_container, delete, stop, run, fetch_result_file}
use rep.Processor.{process_lrp}
use rep.Processor.Ordinary
use rep.Processor.Ordinary.{LrpContainer}
use rep.Processor.Evacuation
use rep.Processor.Tasks
use rep.Operation.{
  Operation, residual_instance_lrp, residual_evacuating_lrp, residual_joint_lrp, residual_task,
  container_operation, if_missing, unless_exists, execute, execute_residual_instance,
  execute_residual_evacuating, execute_residual_joint, execute_residual_task, process_lifecycle,
  process_found, execute_container,
}

module _ {S : Type 0} {P : S → Type 0} (env : Env S) (k : IsKept env P) where
  fetch_container-Stays : (guid : String) → Stays P (fetch_container env guid)
  unfolding fetch_container
  fetch_container-Stays guid = search (stays_rules, k)

  delete-Stays : (guid : String) → Stays P (delete env guid)
  unfolding delete
  delete-Stays guid = search (stays_rules, k)

  stop-Stays : (guid : String) → Stays P (stop env guid)
  unfolding stop
  stop-Stays guid = search (stays_rules, k)

  run-Stays : (req : RunRequest) → Stays P (run env req)
  unfolding run
  run-Stays req = search (stays_rules, k, delete-Stays) depth 9

  fetch_result_file-Stays : (guid file : String) → Stays P (fetch_result_file env guid file)
  unfolding fetch_result_file
  fetch_result_file-Stays guid file = search (stays_rules, k)

  ordinary_state-Stays :
      (state : ContainerState) (l : LrpContainer) → Stays P (Ordinary.process_state env state l)
  unfolding Ordinary.process_state Ordinary.process_reserved_container
      Ordinary.process_initializing_container Ordinary.process_created_container
      Ordinary.process_running_container Ordinary.process_completed_container
      Ordinary.report_completed Ordinary.claim_lrp_container Ordinary.run_claimed
  ordinary_state-Stays reserved l = search (stays_rules, k, delete-Stays, run-Stays) depth 12
  ordinary_state-Stays initializing l = search (stays_rules, k, delete-Stays) depth 12
  ordinary_state-Stays created l = search (stays_rules, k, delete-Stays) depth 12
  ordinary_state-Stays running l = search (stays_rules, k, stop-Stays) depth 12
  ordinary_state-Stays completed l = search (stays_rules, k, delete-Stays) depth 12
  ordinary_state-Stays (other_state _) l = search stays_rules

  evacuation_state-Stays :
      (state : ContainerState) (ttl : ℕ) (l : LrpContainer)
      → Stays P (Evacuation.process_state env state ttl l)
  unfolding Evacuation.process_state Evacuation.evacuate_claimed_lrp_container
      Evacuation.process_running_container Evacuation.process_completed_container
      Evacuation.report_completed
  evacuation_state-Stays reserved ttl l = search (stays_rules, k, delete-Stays) depth 12
  evacuation_state-Stays (other_state _) ttl l = search stays_rules
  evacuation_state-Stays _ ttl l = search (stays_rules, k, delete-Stays) depth 12

  process_lrp-Stays :
      (cell_id : String) (ttl : ℕ) (container : Container)
      → Stays P (process_lrp env cell_id ttl container)
  unfolding process_lrp Ordinary.process Evacuation.process
  process_lrp-Stays cell_id ttl container =
      search (stays_rules, k, ordinary_state-Stays, evacuation_state-Stays) depth 12

  complete-Stays :
      (cell_id : String) (container : Container) → Stays P (Tasks.complete env cell_id container)
  unfolding Tasks.complete Tasks.report_complete Tasks.report_fetched Tasks.fail
  complete-Stays cell_id container = search (stays_rules, k, fetch_result_file-Stays) depth 12

  run_started-Stays : (container : Container) → Stays P (Tasks.run_started env container)
  unfolding Tasks.run_started Tasks.run_found Tasks.fail
  run_started-Stays container = search (stays_rules, k, run-Stays) depth 12

  start-Stays : (cell_id guid : String) → Stays P (Tasks.start env cell_id guid)
  unfolding Tasks.start
  start-Stays cell_id guid = search (stays_rules, k, delete-Stays) depth 12

  task_state-Stays :
      (state : ContainerState) (cell_id : String) (container : Container)
      → Stays P (Tasks.process_state env state cell_id container)
  unfolding Tasks.process_state Tasks.process_active_container Tasks.process_completed_container
  task_state-Stays completed cell_id container =
      search (stays_rules, complete-Stays, delete-Stays) depth 12
  task_state-Stays (other_state _) cell_id container = search stays_rules
  task_state-Stays _ cell_id container =
      search (stays_rules, start-Stays, run_started-Stays) depth 12

  if_missing-Stays :
      (found : Option Container) (missing : M S (Unit {0}))
      → Stays P missing
      → Stays P (if_missing found missing)
  if_missing-Stays none missing h = h
  if_missing-Stays (some c) missing h = Stays-pure tt

  process_found-Stays :
      (cell_id : String) (ttl : ℕ) (found : Option Container)
      → Stays P (process_found env cell_id ttl found)
  unfolding process_found process_lifecycle Tasks.process
  process_found-Stays cell_id ttl none = Stays-pure tt
  process_found-Stays cell_id ttl (some container) =
      search (stays_rules, process_lrp-Stays, task_state-Stays) depth 12

  -- Whatever property of the outside world every call but AllocateContainers keeps, an operation keeps.
  pub execute-Stays :
      (cell_id : String) (ttl : ℕ) (op : Operation) → Stays P (execute env cell_id ttl op)
  unfolding execute execute_residual_instance execute_residual_evacuating execute_residual_joint
      execute_residual_task execute_container unless_exists
  execute-Stays cell_id ttl (residual_instance_lrp key inst) =
      search (stays_rules, k, fetch_container-Stays, if_missing-Stays) depth 12
  execute-Stays cell_id ttl (residual_evacuating_lrp key inst) =
      search (stays_rules, k, fetch_container-Stays, if_missing-Stays) depth 12
  execute-Stays cell_id ttl (residual_joint_lrp key inst) =
      search (stays_rules, k, fetch_container-Stays, if_missing-Stays) depth 12
  execute-Stays cell_id ttl (residual_task guid) =
      search (stays_rules, k, fetch_container-Stays, if_missing-Stays) depth 12
  execute-Stays cell_id ttl (container_operation guid) =
      search (stays_rules, fetch_container-Stays, process_found-Stays) depth 12
