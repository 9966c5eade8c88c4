-- ===== src/AuctionRep/Perform.antt =====
-- auctioncellrep/auction_cell_rep.go: Perform, which turns the work that the auctioneer places on the
-- cell into containers, and returns the work that failed. Logging is left out.
pub mod Requested
pub mod Index
pub mod Translation
pub mod Placed
pub mod Failures
pub mod Refusals
use rep.Base.{ℕ, String, ◌==◌, Bool, true, false, List, [], ◌∷◌, ◌++◌, Option, none, some}
use rep.Base.Tests.{if◌then◌else◌}
use rep.Base.GoMap.{GoMap, lookup, put}
use rep.Base.Result.{Result, ok, err}
use rep.Cell.{Resource, Lrp, Task, Work}
use rep.Models.{ContainerResource, AllocationRequest}
use rep.Conversion.Tags.{
  lifecycle_tag, domain_tag, process_guid_tag, process_index_tag, instance_guid_tag, lrp_lifecycle,
  task_lifecycle, lrp_container_guid,
}
use rep.Services.{
  ExecutorError, Library, Env, M, pure, ask, on_result, ◌>>=◌, ◌>>◌, generate_instance_guid,
  allocate_containers, evacuating,
}
use rep.AuctionRep.{StackPathMap, AuctionCellRep, PathError, path_for_root_fs}

-- The tags of an LRP's container, put one by one into an empty map.
unfoldable pub lrp_tags : Library → Lrp → String → GoMap String
lrp_tags lib lrp instance_guid = put instance_guid_tag instance_guid (
    put lifecycle_tag lrp_lifecycle (
      put process_index_tag (lib.itoa lrp.key.index)
        (put process_guid_tag lrp.key.process_guid (put domain_tag lrp.key.domain []))))

unfoldable pub task_tags : Task → GoMap String
task_tags task = put domain_tag task.domain (put lifecycle_tag task_lifecycle [])

-- executor.NewResource of the numbers of a resource and a rootfs path.
unfoldable pub container_resource : Resource → String → ContainerResource
container_resource resource root_fs_path = record {
  memory_mb = resource.memory_mb;
  disk_mb = resource.disk_mb;
  max_pids = resource.max_pids;
  root_fs_path = root_fs_path;
}

unfoldable pub lrp_request : Library → Lrp → String → String → AllocationRequest
unfolding lrp_tags container_resource lrp_container_guid
lrp_request lib lrp instance_guid root_fs_path = record {
  guid = lrp_container_guid lrp.key.process_guid instance_guid;
  resource = container_resource lrp.resource root_fs_path;
  tags = lrp_tags lib lrp instance_guid;
}

unfoldable pub task_request : Task → String → AllocationRequest
unfolding task_tags container_resource
task_request task root_fs_path = record {
  guid = task.task_guid;
  resource = container_resource task.resource root_fs_path;
  tags = task_tags task;
}

-- What lrpsToAllocationRequest and tasksToAllocationRequests return.
pub record Translated (W : Type 0) : Type 0 where
  pub requests : List AllocationRequest
  pub by_guid : GoMap W
  pub untranslated : List W

abbrev pub untranslated_too : {W : Type 0} → Translated W → W → Translated W
untranslated_too t w = record t { untranslated = t.untranslated ++ w ∷ [] }

-- The end of a round of the loop over the LRPs, from the path of the rootfs on.
unfoldable pub translate_at :
    Library → Translated Lrp → Lrp → String → Result PathError String → Translated Lrp
translate_at lib t lrp instance_guid (err _) = untranslated_too t lrp
translate_at lib t lrp instance_guid (ok root_fs_path) =
    let request = lrp_request lib lrp instance_guid root_fs_path in
    record t { requests = t.requests ++ request ∷ []; by_guid = put request.guid lrp t.by_guid }

-- The same, from the instance guid on, which may not have been generated.
unfoldable pub translate_lrp :
    Library → StackPathMap → Translated Lrp → Lrp → Option String → Translated Lrp
unfolding translate_at
translate_lrp lib stacks t lrp none = untranslated_too t lrp
translate_lrp lib stacks t lrp (some instance_guid) =
    translate_at lib t lrp instance_guid (path_for_root_fs lib lrp.constraint.root_fs stacks)

-- A round of the loop over the tasks, from the path of the rootfs on.
unfoldable pub translate_task_at :
    Translated Task → Task → Result PathError String → Translated Task
translate_task_at t task (err _) = record t {
  by_guid = put task.task_guid task t.by_guid;
  untranslated = t.untranslated ++ task ∷ [];
}
translate_task_at t task (ok root_fs_path) = record t {
  requests = t.requests ++ task_request task root_fs_path ∷ [];
  by_guid = put task.task_guid task t.by_guid;
}

unfoldable pub translate_task : Library → StackPathMap → Translated Task → Task → Translated Task
unfolding translate_task_at
translate_task lib stacks t task =
    translate_task_at t task (path_for_root_fs lib task.constraint.root_fs stacks)

unfoldable pub tasks_to_allocation_requests :
    Library → StackPathMap → Translated Task → List Task → Translated Task
unfolding translate_task
tasks_to_allocation_requests lib stacks t [] = t
tasks_to_allocation_requests lib stacks t (task ∷ more) =
    tasks_to_allocation_requests lib stacks (translate_task lib stacks t task) more

-- if w, found := byGuid[failure.Guid]; found { append }
unfoldable pub append_found : {W : Type 0} → Option W → List W → List W
append_found none rest = rest
append_found (some w) rest = w ∷ rest

-- for i := range failures { … }
unfoldable pub failed_work : {W : Type 0} → GoMap W → List AllocationRequest → List W
unfolding append_found
failed_work by_guid [] = []
failed_work by_guid (failure ∷ more) =
    append_found (lookup failure.guid by_guid) (failed_work by_guid more)

-- The work that failed, by what AllocateContainers answers: all of it on an error, otherwise what
-- could not be translated and what the executor refused.
unfoldable pub not_allocated :
    {W : Type 0} → List W → Translated W → Result ExecutorError (List AllocationRequest) → List W
unfolding failed_work
not_allocated work t (ok failures) = t.untranslated ++ failed_work t.by_guid failures
not_allocated work t (err _) = work

abbrev pub nothing_translated : {W : Type 0} → Translated W
nothing_translated = record { requests = []; by_guid = []; untranslated = [] }

module _ {S : Type 0} (env : Env S) where
  unfoldable pub lrps_to_allocation_request :
      StackPathMap → Translated Lrp → List Lrp → M S (Translated Lrp)
  unfolding translate_lrp
  lrps_to_allocation_request stacks t [] = pure t
  lrps_to_allocation_request stacks t (lrp ∷ more) = ask env generate_instance_guid >>= λ generated.
      lrps_to_allocation_request stacks (translate_lrp env.lib stacks t lrp generated) more

  unfoldable pub allocate : {W : Type 0} → List W → Translated W → M S (List W)
  unfolding not_allocated
  allocate work t = do
    reply ← ask env (allocate_containers t.requests)
    pure (not_allocated work t reply)

  unfoldable pub perform_lrps : StackPathMap → List Lrp → M S (List Lrp)
  unfolding lrps_to_allocation_request allocate
  perform_lrps stacks [] = pure []
  perform_lrps stacks (lrp ∷ more) =
      lrps_to_allocation_request stacks nothing_translated (lrp ∷ more) >>= allocate (lrp ∷ more)

  unfoldable pub perform_tasks : StackPathMap → List Task → M S (List Task)
  unfolding tasks_to_allocation_requests allocate
  perform_tasks stacks [] = pure []
  perform_tasks stacks (task ∷ more) =
      allocate (task ∷ more)
        (tasks_to_allocation_requests env.lib stacks nothing_translated (task ∷ more))

  -- Perform; its error is always nil.
  unfoldable pub perform : AuctionCellRep → Work → M S Work
  unfolding perform_lrps perform_tasks
  perform a work = do
    is_evacuating ← ask env evacuating
    if is_evacuating then pure work else (do
      failed_lrps ← perform_lrps a.stack_path_map work.lrps
      failed_tasks ← perform_tasks a.stack_path_map work.tasks
      pure (record { lrps = failed_lrps; tasks = failed_tasks }))
