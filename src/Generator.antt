-- ===== src/Generator.antt =====
-- generator/generator.go: BatchOperations, the operations for all containers, LRPs and tasks of the
-- cell. Logging is left out.
pub mod Collect
pub mod Batch
pub mod Unique
pub mod Sources
use rep.Base.{String, ℕ, Bool, true, false, List, [], ◌∷◌, Option, none, some}
use rep.Base.Tests.{if◌then◌else◌}
use rep.Base.GoMap.{GoMap, lookup, put, has}
use rep.Base.Result.{Result, ok, err}
use rep.Models.{Container, ActualLrp, ActualLrpGroup, TaskDefinition}
use rep.Conversion.Tags.{lrp_container_guid}
use rep.Services.{Env, M, pure, ask, ◌>>=◌, list_containers, actual_lrp_groups, tasks_by_cell_id}
use rep.Operation.{
  Operation, residual_instance_lrp, residual_evacuating_lrp, residual_joint_lrp, residual_task,
  container_operation,
}

-- What a source answered: nil or an error, as BatchOperations sees it.
pub data BatchError : Type 0 where
  failed_to_list_containers failed_to_retrieve_lrps failed_to_retrieve_tasks : BatchError

-- for _, c := range foundContainers { containers[c.Guid] = c }
unfoldable pub collect_containers : GoMap Container → List Container → GoMap Container
collect_containers containers [] = containers
collect_containers containers (c ∷ more) = collect_containers (put c.guid c containers) more

unfoldable pub lrp_guid : ActualLrp → String
unfolding lrp_container_guid
lrp_guid lrp = lrp_container_guid lrp.key.process_guid lrp.instance_key.instance_guid

-- if lrp != nil { lrps[LRPContainerGuid(...)] = *lrp }
unfoldable pub put_lrp : Option ActualLrp → GoMap ActualLrp → GoMap ActualLrp
unfolding lrp_guid
put_lrp none lrps = lrps
put_lrp (some lrp) lrps = put (lrp_guid lrp) lrp lrps

-- The loop over the groups, for the map of instances and for that of evacuating LRPs.
unfoldable pub collect_instances : GoMap ActualLrp → List ActualLrpGroup → GoMap ActualLrp
unfolding put_lrp
collect_instances lrps [] = lrps
collect_instances lrps (group ∷ more) = collect_instances (put_lrp group.instance_lrp lrps) more

unfoldable pub collect_evacuating : GoMap ActualLrp → List ActualLrpGroup → GoMap ActualLrp
unfolding put_lrp
collect_evacuating lrps [] = lrps
collect_evacuating lrps (group ∷ more) = collect_evacuating (put_lrp group.evacuating_lrp lrps) more

unfoldable pub collect_tasks : GoMap TaskDefinition → List TaskDefinition → GoMap TaskDefinition
collect_tasks tasks [] = tasks
collect_tasks tasks (task ∷ more) = collect_tasks (put task.task_guid task tasks) more

-- create operations for processes with containers
unfoldable pub add_containers : GoMap Operation → GoMap Container → GoMap Operation
add_containers batch [] = batch
add_containers batch ((guid, _) ∷ more) =
    add_containers (put guid (container_operation guid) batch) more

-- The operation for an instance LRP with no container: joint if the guid is evacuating too.
unfoldable pub instance_operation : GoMap ActualLrp → String → ActualLrp → Operation
instance_operation evacuating guid lrp =
    if has guid evacuating
    then residual_joint_lrp lrp.key lrp.instance_key
    else residual_instance_lrp lrp.key lrp.instance_key

-- create operations for instance lrps with no containers
unfoldable pub add_instances : GoMap ActualLrp → GoMap Operation → GoMap ActualLrp → GoMap Operation
add_instances evacuating batch [] = batch
add_instances evacuating batch ((guid, lrp) ∷ more) =
    add_instances evacuating
      (if has guid batch then batch else put guid (instance_operation evacuating guid lrp) batch)
      more

-- create operations for evacuating lrps with no containers
unfoldable pub add_evacuating : GoMap Operation → GoMap ActualLrp → GoMap Operation
add_evacuating batch [] = batch
add_evacuating batch ((guid, lrp) ∷ more) =
    add_evacuating
      (if has guid batch
        then batch
        else put guid (residual_evacuating_lrp lrp.key lrp.instance_key) batch)
      more

-- create operations for tasks with no containers
unfoldable pub add_tasks : GoMap Operation → GoMap TaskDefinition → GoMap Operation
add_tasks batch [] = batch
add_tasks batch ((guid, _) ∷ more) =
    add_tasks (if has guid batch then batch else put guid (residual_task guid) batch) more

-- The four loops that fill the batch.
unfoldable pub make_batch :
    GoMap Container → GoMap ActualLrp → GoMap ActualLrp → GoMap TaskDefinition → GoMap Operation
make_batch containers instances evacuating tasks =
    let with_containers = add_containers [] containers in
    let with_instances = add_instances evacuating with_containers instances in
    let with_evacuating = add_evacuating with_instances evacuating in
    add_tasks with_evacuating tasks

-- The three goroutines of BatchOperations, by what they fetch.
pub data Source : Type 0 where
  from_executor from_lrp_groups from_tasks : Source

-- The orders in which three goroutines can come to a point.
pub data Order : Type 0 where
  executor_lrps_tasks executor_tasks_lrps lrps_executor_tasks : Order
  lrps_tasks_executor tasks_executor_lrps tasks_lrps_executor : Order

unfoldable pub sources : Order → List Source
sources executor_lrps_tasks = from_executor ∷ from_lrp_groups ∷ from_tasks ∷ []
sources executor_tasks_lrps = from_executor ∷ from_tasks ∷ from_lrp_groups ∷ []
sources lrps_executor_tasks = from_lrp_groups ∷ from_executor ∷ from_tasks ∷ []
sources lrps_tasks_executor = from_lrp_groups ∷ from_tasks ∷ from_executor ∷ []
sources tasks_executor_lrps = from_tasks ∷ from_executor ∷ from_lrp_groups ∷ []
sources tasks_lrps_executor = from_tasks ∷ from_lrp_groups ∷ from_executor ∷ []

-- The maps that the goroutines fill, and the error that each sends on errChan.
pub record Fetched : Type 0 where
  pub containers : GoMap Container
  pub instances : GoMap ActualLrp
  pub evacuating : GoMap ActualLrp
  pub tasks : GoMap TaskDefinition
  pub executor_error : Option BatchError
  pub lrps_error : Option BatchError
  pub tasks_error : Option BatchError

abbrev pub nothing_fetched : Fetched
nothing_fetched = record {
  containers = [];
  instances = [];
  evacuating = [];
  tasks = [];
  executor_error = none;
  lrps_error = none;
  tasks_error = none;
}

-- The end of each goroutine. What comes with an error would be collected too, but a map is read only if
-- there is no error.
unfoldable pub store_containers : {E : Type 0} → Fetched → Result E (List Container) → Fetched
store_containers f (ok found) = record f { containers = collect_containers f.containers found }
store_containers f (err _) = record f { executor_error = some failed_to_list_containers }

unfoldable pub store_groups : {E : Type 0} → Fetched → Result E (List ActualLrpGroup) → Fetched
store_groups f (ok groups) = record f {
  instances = collect_instances f.instances groups;
  evacuating = collect_evacuating f.evacuating groups;
}
store_groups f (err _) = record f { lrps_error = some failed_to_retrieve_lrps }

unfoldable pub store_tasks : {E : Type 0} → Fetched → Result E (List TaskDefinition) → Fetched
store_tasks f (ok found) = record f { tasks = collect_tasks f.tasks found }
store_tasks f (err _) = record f { tasks_error = some failed_to_retrieve_tasks }

-- The error that a goroutine sends.
unfoldable pub sent_error : Fetched → Source → Option BatchError
sent_error f from_executor = f.executor_error
sent_error f from_lrp_groups = f.lrps_error
sent_error f from_tasks = f.tasks_error

-- for i := 0; i < 3; i++ { e := <-errChan; if err == nil && e != nil { err = e } }
unfoldable pub first_error : Fetched → Option BatchError → List Source → Option BatchError
unfolding sent_error
first_error f error [] = error
first_error f (some e) (source ∷ more) = first_error f (some e) more
first_error f none (source ∷ more) = first_error f (sent_error f source) more

-- The end of BatchOperations, once all three errors have been received in the order `arrivals`.
unfoldable pub finish : Fetched → Order → Result BatchError (GoMap Operation)
unfolding sources first_error
finish f arrivals = elim (first_error f none (sources arrivals)) [
  | some e ↦ err e
  | none ↦ ok (make_batch f.containers f.instances f.evacuating f.tasks)
]

module _ {S : Type 0} (env : Env S) (cell_id : String) where
  -- One goroutine.
  unfoldable pub fetch : Source → Fetched → M S Fetched
  unfolding store_containers store_groups store_tasks
  fetch from_executor f = do reply ← ask env list_containers; pure (store_containers f reply)
  fetch from_lrp_groups f = do
    reply ← ask env (actual_lrp_groups cell_id)
    pure (store_groups f reply)
  fetch from_tasks f = do reply ← ask env (tasks_by_cell_id cell_id); pure (store_tasks f reply)

  unfoldable pub fetch_all : List Source → Fetched → M S Fetched
  unfolding fetch
  fetch_all [] f = pure f
  fetch_all (source ∷ more) f = fetch source f >>= fetch_all more

  -- BatchOperations, where the goroutines call their services in the order `calls` and their errors
  -- arrive in the order `arrivals`.
  unfoldable pub batch_operations : Order → Order → M S (Result BatchError (GoMap Operation))
  unfolding fetch_all sources finish
  batch_operations calls arrivals = do
    f ← fetch_all (sources calls) nothing_fetched
    pure (finish f arrivals)
