-- ===== src/Processor/Concerns.antt =====
-- Calls that concern one container and one LRP instance, and the delegate's operations
-- (container_delegate.go).
use rep.Base.{String, ◌≡◌}
use rep.Models.{RunRequest}
use rep.Services.{
  Call, Env, list_containers, total_resources, remaining_resources, volume_drivers, healthy,
  get_container, stop_container, delete_container, run_container, get_files, allocate_containers,
  claim_actual_lrp, start_actual_lrp, crash_actual_lrp, remove_actual_lrp,
  remove_evacuating_actual_lrp, evacuate_claimed_actual_lrp, evacuate_stopped_actual_lrp,
  evacuate_running_actual_lrp, evacuate_crashed_actual_lrp, desired_lrp_by_process_guid,
  actual_lrp_groups, start_task, task_by_guid, tasks_by_cell_id, complete_task, fail_task,
  generate_instance_guid, send_metric, send_duration, ping, now, await_timer, evacuate, evacuating,
}
use rep.Services.Only.{Only, Only-pure, Only-on_result, Only-ask-bind, only_rules}
use rep.Delegate.{fetch_container, delete, stop, run, fetch_result_file}

-- A call that concerns the container `guid` and the LRP instance `instance` alone: a call about a
-- container names `guid`, a call about a task names it too, and a call that changes an ActualLRP
-- names `instance`. Calls about the whole cell are excluded.
abbrev pub Concerns : String → String → Call → Type 0
Concerns guid inst list_containers = ⊥
Concerns guid inst total_resources = ⊥
Concerns guid inst remaining_resources = ⊥
Concerns guid inst volume_drivers = ⊥
Concerns guid inst healthy = ⊥
Concerns guid inst (allocate_containers _) = ⊥
Concerns guid inst (actual_lrp_groups _) = ⊥
Concerns guid inst (tasks_by_cell_id _) = ⊥
Concerns guid inst generate_instance_guid = ⊥
Concerns guid inst evacuating = Unit
Concerns guid inst (send_metric _ _) = ⊥
Concerns guid inst (send_duration _ _) = ⊥
Concerns guid inst now = ⊥
Concerns guid inst ping = ⊥
Concerns guid inst (await_timer _) = ⊥
Concerns guid inst evacuate = ⊥
Concerns guid inst (desired_lrp_by_process_guid _) = Unit
Concerns guid inst (get_container g) = g ≡ guid
Concerns guid inst (stop_container g) = g ≡ guid
Concerns guid inst (delete_container g) = g ≡ guid
Concerns guid inst (run_container req) = req.guid ≡ guid
Concerns guid inst (get_files g _) = g ≡ guid
Concerns guid inst (start_task g _) = g ≡ guid
Concerns guid inst (task_by_guid g) = g ≡ guid
Concerns guid inst (complete_task g _ _ _ _) = g ≡ guid
Concerns guid inst (fail_task g _) = g ≡ guid
Concerns guid inst (claim_actual_lrp _ _ k) = k.instance_guid ≡ inst
Concerns guid inst (start_actual_lrp _ k _) = k.instance_guid ≡ inst
Concerns guid inst (crash_actual_lrp _ k _) = k.instance_guid ≡ inst
Concerns guid inst (remove_actual_lrp _ _ k) = k.instance_guid ≡ inst
Concerns guid inst (remove_evacuating_actual_lrp _ k) = k.instance_guid ≡ inst
Concerns guid inst (evacuate_claimed_actual_lrp _ k) = k.instance_guid ≡ inst
Concerns guid inst (evacuate_stopped_actual_lrp _ k) = k.instance_guid ≡ inst
Concerns guid inst (evacuate_running_actual_lrp _ k _ _) = k.instance_guid ≡ inst
Concerns guid inst (evacuate_crashed_actual_lrp _ k _) = k.instance_guid ≡ inst

module _ {S : Type 0} (env : Env S) {guid inst : String} (g : String) (e : g ≡ guid) where
  pub delete-Concerns : Only (Concerns guid inst) (delete env g)
  unfolding delete
  delete-Concerns = search only_rules

  pub stop-Concerns : Only (Concerns guid inst) (stop env g)
  unfolding stop
  stop-Concerns = search only_rules

  pub fetch_container-Concerns : Only (Concerns guid inst) (fetch_container env g)
  unfolding fetch_container
  fetch_container-Concerns = search only_rules

  pub fetch_result_file-Concerns :
      (filename : String) → Only (Concerns guid inst) (fetch_result_file env g filename)
  unfolding fetch_result_file
  fetch_result_file-Concerns filename = search only_rules

pub ruleset delegate_rules = (
  only_rules, delete-Concerns, stop-Concerns, fetch_container-Concerns, fetch_result_file-Concerns,
)

module _ {S : Type 0} (env : Env S) where
  pub run-Concerns :
      {guid inst : String} (req : RunRequest)
      → req.guid ≡ guid
      → Only (Concerns guid inst) (run env req)
  unfolding run
  run-Concerns req e = search delegate_rules
