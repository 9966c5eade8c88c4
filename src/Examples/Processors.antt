-- ===== src/Examples/Processors.antt =====
-- The theorems on the processors of containers and on the operations, applied.
use rep.Base.{
  ℕ, ◌≤◌, String, ◌==◌, eq_iff, Bool, true, false, ◌≡◌, refl, inl, inr, List, [], ◌∷◌, ◌++◌, Option,
  none, some, arith,
}
use rep.Models.{running, completed, ActualLrpNetInfo}
use rep.Services.{delete_container, get_files, complete_task}
use rep.Services.Only.{Only, Adds}
use rep.Conversion.Tags.{
  tag, instance_guid_tag, actual_lrp_key_from_tags, actual_lrp_net_info_from_container,
  container_missing_tags,
}
use rep.Delegate.{read_result}
use rep.Processor.Ordinary.{LrpContainer}
use rep.Processor.Evacuation
use rep.Processor.Evacuation.Deletes.{evacuation_calls, process_state-calls}
use rep.Processor.Tasks
use rep.Processor.Tasks.Completion.{
  BoundsResult, process_completed_container_task, process-BoundsResult,
}
use rep.Processor.TaskScope.{FindsTask}
use rep.Operation.{Operation, residual_joint_lrp, container_operation, execute}
use rep.Operation.Isolation.{OnContainer, FindsContainer, execute-OnContainer}
use rep.Examples.{
  env, library, steady, draining, lrp_key, instance_key, lrp_container, task_container, IsOk, value,
}

abbrev found_lrp : LrpContainer
found_lrp = record { key = lrp_key; instance_key = instance_key; container = lrp_container running }

net_info-IsOk : IsOk (actual_lrp_net_info_from_container library (lrp_container running))
unfolding actual_lrp_net_info_from_container
net_info-IsOk = tt

abbrev net_info : ActualLrpNetInfo
net_info = value (actual_lrp_net_info_from_container library (lrp_container running)) net_info-IsOk

process_state-calls_example :
    (Evacuation.process_state env running 60 found_lrp draining).1.calls
    ≡ evacuation_calls env running 60 found_lrp draining
process_state-calls_example = process_state-calls env running 60 found_lrp draining

process_completed_container_task_example :
    (Tasks.process_completed_container env "cell" (task_container completed) steady).1.calls
    ≡ delete_container "task"
      ∷ complete_task "task" "cell" false "" (7 ∷ 8 ∷ [])
      ∷ get_files "task" "/result"
      ∷ []
unfolding tag rep.Conversion.Tags.tag_of rep.Base.GoMap.lookup read_result
process_completed_container_task_example =
    process_completed_container_task env "cell" (task_container completed) steady

process-BoundsResult_example :
    Only BoundsResult (Tasks.process_state env completed "cell" (task_container completed))
process-BoundsResult_example = process-BoundsResult env "cell" (task_container completed) completed

pub env-FindsTask : FindsTask env
env-FindsTask guid s task h = ground arith

pub env-FindsContainer : FindsContainer env
env-FindsContainer guid s container h = ground (arith, eq_iff guid "instance")

execute-OnContainer_example :
    Adds
      (OnContainer env false (container_operation "instance"))
      []
      (execute env "cell" 60 (container_operation "instance") steady).1.calls
execute-OnContainer_example =
    execute-OnContainer env "cell" 60 env-FindsTask env-FindsContainer
      (container_operation "instance") steady

abbrev lost : Operation
lost = residual_joint_lrp lrp_key (record { instance_guid = "lost"; cell_id = "cell" })
