-- ===== src/Examples/Convergence.antt =====
-- The theorems on a sync and the execution of what it pushes, applied to a task whose container is lost.
use rep.Base.{◌≡◌, some, String, Bool, false, refl, List, [], ◌∷◌, Memᴰ}
use rep.Services.{World, container_not_found, fail_task}
use rep.Services.Only.{Adds}
use rep.Processor.Tasks.{reason_missing_container}
use rep.Operation.{Operation, residual_task, execute}
use rep.Operation.Isolation.{OnContainer}
use mathlib.Core.List.{Permᴰ}
use rep.Base.{eq_iff, arith}
use rep.Base.GoMap.{GoMap, lookup, put}
use rep.Base.MapOrder.{Same}
use rep.Models.{TaskDefinition}
use rep.Generator.{
  executor_lrps_tasks, tasks_lrps_executor, store_tasks, store_groups, store_containers, make_batch,
  collect_containers, collect_instances, collect_evacuating, collect_tasks,
}
use rep.Generator.Sources.{AllFetched, Reads, fetched}
use rep.Harmonizer.{sync, values}
use rep.Harmonizer.Bulk.{operation_for}
use rep.Harmonizer.IterationOrder.{values-make_batch}
use rep.Harmonizer.Convergence.{
  Executed, nothing_executed, then_execute, Executes, sync-removals, sync-confined,
}
use rep.Examples.{env, steady, task_named}
use rep.Examples.Processors.{env-FindsTask, env-FindsContainer}

abbrev pushes : List Operation
pushes = (sync env "cell" executor_lrps_tasks tasks_lrps_executor steady).0

abbrev synced : World Bool
synced = (sync env "cell" executor_lrps_tasks tasks_lrps_executor steady).1

-- The operations executed, the last of the list first.
abbrev execute_all : List Operation → World Bool
execute_all [] = synced
execute_all (op ∷ more) = (execute env "cell" 60 op (execute_all more)).1

execute_all-Executed :
    (done : List Operation) → Executed env "cell" 60 synced done (execute_all done)
execute_all-Executed [] = nothing_executed
execute_all-Executed (op ∷ more) = then_execute (execute_all-Executed more) op

env-Reads : Reads env "cell"
env-Reads s = (refl, refl, refl)

sync-removals_example : Memᴰ (fail_task "lost" reason_missing_container) (execute_all pushes).calls
unfolding fetched store_tasks store_groups store_containers lookup collect_containers put
    collect_instances collect_evacuating collect_tasks
sync-removals_example =
    sync-removals env "cell" 60 env-FindsTask env-FindsContainer executor_lrps_tasks
      tasks_lrps_executor steady env-Reads (execute_all-Executed pushes) "lost"
      (residual_task "lost") (record { containers = refl; lrps = refl; tasks = refl }) refl
      (λ o m. m) (λ s. (container_not_found, refl)) (fail_task "lost" reason_missing_container)
      (Memᴰ.head refl)

sync-confined_example :
    Adds
      (λ c.
        (op : Operation) × (s : Bool) × Executes (execute_all-Executed pushes) op s
        × (AllFetched (fetched env "cell" false)
            × ((guid : String) × (operation_for (fetched env "cell" false) guid ≡ some op)))
        × OnContainer env s op c)
      synced.calls
      (execute_all pushes).calls
sync-confined_example =
    sync-confined env "cell" 60 env-FindsTask env-FindsContainer executor_lrps_tasks
      tasks_lrps_executor steady env-Reads (execute_all-Executed pushes) λ o m. m

-- A map of two lost tasks, ranged over in two orders.
abbrev lost : String → TaskDefinition
lost guid = task_named guid

abbrev in_order : GoMap TaskDefinition
in_order = ("a", lost "a") ∷ ("b", lost "b") ∷ []

abbrev reversed : GoMap TaskDefinition
reversed = ("b", lost "b") ∷ ("a", lost "a") ∷ []

in_order-Same : Same in_order reversed
unfolding lookup
in_order-Same k = ground (arith, eq_iff "a" k, eq_iff "b" k)

values-make_batch_example :
    Permᴰ (values (make_batch [] [] [] in_order)) (values (make_batch [] [] [] reversed))
values-make_batch_example =
    values-make_batch [] [] [] [] [] [] in_order reversed (λ k. refl) (λ k. refl) (λ k. refl)
      in_order-Same
