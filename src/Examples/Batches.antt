-- ===== src/Examples/Batches.antt =====
-- The theorems on batches of operations, applied.
use rep.Base.{◌≡◌, refl, [], ◌∷◌, some}
use rep.Base.GoMap.{GoMap, lookup}
use rep.Base.Result.{ok}
use rep.Operation.{Operation, residual_joint_lrp}
use rep.Generator.{
  failed_to_list_containers, executor_lrps_tasks, tasks_lrps_executor, lrps_tasks_executor, Fetched,
  nothing_fetched, make_batch, finish, batch_operations, fetch_all, fetch, sources,
  store_containers, store_groups, store_tasks, first_error, sent_error,
}
use rep.Generator.Batch.{lookup-make_batch}
use rep.Generator.Sources.{batch_operations_confluent}
use rep.Examples.{env, steady, lrp_key, instance_key, actual_lrp, task_named, IsOk, value, value-ok}

lookup-make_batch_example :
    lookup "instance" (
      make_batch []
        (("instance", actual_lrp) ∷ [])
        (("instance", actual_lrp) ∷ [])
        (("lost", task_named "lost") ∷ []))
    ≡ some (residual_joint_lrp lrp_key instance_key)
unfolding lookup
lookup-make_batch_example =
    lookup-make_batch "instance" [] (("instance", actual_lrp) ∷ []) (("instance", actual_lrp) ∷ [])
      (("lost", task_named "lost") ∷ [])

batch-IsOk : IsOk (batch_operations env "cell" executor_lrps_tasks tasks_lrps_executor steady).0
unfolding batch_operations fetch_all fetch sources store_containers store_groups store_tasks finish
    first_error sent_error
batch-IsOk = tt

abbrev batch : GoMap Operation
batch =
    value (batch_operations env "cell" executor_lrps_tasks tasks_lrps_executor steady).0 batch-IsOk

abbrev failed : Fetched
failed = record nothing_fetched { executor_error = some failed_to_list_containers }

batch_operations_confluent_example :
    (batch_operations env "cell" lrps_tasks_executor executor_lrps_tasks steady).0 ≡ ok batch
batch_operations_confluent_example =
    batch_operations_confluent env "cell" executor_lrps_tasks tasks_lrps_executor
      lrps_tasks_executor executor_lrps_tasks steady batch (λ s. (refl, refl, refl))
      (value-ok _ batch-IsOk)
