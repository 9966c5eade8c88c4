-- ===== src/AuctionRep/State.antt =====
-- auctioncellrep/auction_cell_rep.go: State, which reports the containers of the executor as the state
-- of the cell. Logging is left out.
pub mod Loop
pub mod Report
use rep.Base.{String, ◌==◌, Bool, true, false, List, [], ◌∷◌, ◌++◌}
use rep.Base.Tests.{if◌then◌else◌}
use rep.Base.Int.{ℤ, pos, ◌+ℤ◌, int32, int64}
use rep.Base.Result.{Result, ok, err}
use rep.Cell.{Resources, Resource, PlacementConstraint, ActualLrpKey, Lrp, Task, CellState}
use rep.Models.{
  Tags, Container, ContainerState, reserved, initializing, created, running, completed, other_state,
  ExecutorResources,
}
use rep.Conversion.Tags.{
  lifecycle_tag, domain_tag, lrp_lifecycle, task_lifecycle, ConversionError, tag,
  actual_lrp_key_from_tags,
}
use rep.Services.{
  ExecutorError, Library, Env, M, pure, ask, on_result, ◌>>=◌, list_containers, total_resources,
  remaining_resources, volume_drivers, healthy, evacuating,
}
use rep.AuctionRep.{AuctionCellRep}

unfoldable pub convert_resources : ExecutorResources → Resources
convert_resources resources = record {
  memory_mb = int32 resources.memory_mb;
  disk_mb = int32 resources.disk_mb;
  containers = resources.containers;
}

unfoldable pub is_starting : ContainerState → Bool
is_starting reserved = true
is_starting initializing = true
is_starting created = true
is_starting running = false
is_starting completed = false
is_starting (other_state _) = false

unfoldable pub container_is_starting : Container → Bool
unfolding is_starting
container_is_starting container = is_starting container.state

-- rep.Resource of a container; its MaxPids is left 0.
unfoldable pub reported_resource : Container → Resource
reported_resource container = record {
  memory_mb = int32 container.memory_mb;
  disk_mb = int32 container.disk_mb;
  max_pids = pos 0;
}

-- rep.PlacementConstraint{}
abbrev pub no_constraint : PlacementConstraint
no_constraint = record { placement_tags = []; volume_drivers = []; root_fs = "" }

unfoldable pub reported_lrp : Container → ActualLrpKey → Lrp
unfolding reported_resource
reported_lrp container key = record {
  key = key;
  constraint = no_constraint;
  resource = reported_resource container;
}

unfoldable pub reported_task : Container → Task
unfolding reported_resource
reported_task container = record {
  task_guid = container.guid;
  domain = tag container.tags domain_tag;
  constraint = no_constraint;
  resource = reported_resource container;
}

-- The variables of the loop of State.
pub record Reported : Type 0 where
  pub lrps : List Lrp
  pub tasks : List Task
  pub starting_container_count : ℤ

abbrev pub nothing_reported : Reported
nothing_reported = record { lrps = []; tasks = []; starting_container_count = pos 0 }

unfoldable pub count_starting : Reported → Container → Reported
unfolding container_is_starting
count_starting r container =
    if container_is_starting container
    then record r { starting_container_count = int64 (r.starting_container_count +ℤ pos 1) }
    else r

-- The case of an LRP's container, by what its key is.
unfoldable pub report_lrp : Reported → Container → Result ConversionError ActualLrpKey → Reported
unfolding reported_lrp
report_lrp r container (err _) = r
report_lrp r container (ok key) = record r { lrps = r.lrps ++ reported_lrp container key ∷ [] }

-- The switch on the lifecycle tag, by whether it is an LRP's and whether it is a task's.
unfoldable pub report_case :
    Reported → Container → Result ConversionError ActualLrpKey → Bool → Bool → Reported
unfolding report_lrp reported_task
report_case r container key true is_task = report_lrp r container key
report_case r container key false true = record r {
  tasks = r.tasks ++ reported_task container ∷ [];
}
report_case r container key false false = r

unfoldable pub report_tagged : Library → Reported → Container → String → Reported
unfolding report_case
report_tagged lib r container lifecycle =
    report_case r container (actual_lrp_key_from_tags lib container.tags)
      (lifecycle == lrp_lifecycle) (lifecycle == task_lifecycle)

-- A container without tags has no lifecycle, and is skipped in the same way.
unfoldable pub report_containers : Library → Reported → List Container → Reported
unfolding count_starting report_tagged
report_containers lib r [] = r
report_containers lib r (container ∷ more) =
    report_containers lib
      (report_tagged lib (count_starting r container) container (tag container.tags lifecycle_tag))
      more

-- rep.NewCellState of what State has found.
unfoldable pub cell_state :
    AuctionCellRep
    → Reported
    → ExecutorResources
    → ExecutorResources
    → List String
    → Bool
    → CellState
unfolding convert_resources
cell_state a r total available drivers is_evacuating = record {
  root_fs_providers = a.root_fs_providers;
  available_resources = convert_resources available;
  total_resources = convert_resources total;
  lrps = r.lrps;
  tasks = r.tasks;
  starting_container_count = r.starting_container_count;
  zone = a.zone;
  evacuating = is_evacuating;
  volume_drivers = drivers;
  placement_tags = a.placement_tags;
  optional_placement_tags = a.optional_placement_tags;
}

module _ {S : Type 0} (env : Env S) where
  -- The end of State, after the containers, resources and drivers have been fetched.
  unfoldable pub report :
      AuctionCellRep
      → List Container
      → ExecutorResources
      → ExecutorResources
      → List String
      → M S (Result ExecutorError (CellState × Bool))
  unfolding report_containers cell_state
  report a containers total available drivers = do
    is_evacuating ← ask env evacuating
    is_healthy ← ask env healthy
    pure (
        ok (
          cell_state a (report_containers env.lib nothing_reported containers) total available
              drivers is_evacuating,
          is_healthy,
        ))

  -- State from the call for the volume drivers on.
  unfoldable pub with_drivers :
      AuctionCellRep
      → List Container
      → ExecutorResources
      → ExecutorResources
      → M S (Result ExecutorError (CellState × Bool))
  unfolding report
  with_drivers a containers total available = ask env volume_drivers >>= λ r.
      on_result r (report a containers total available) (λ e. pure (err e))

  -- The same, from the remaining resources on.
  unfoldable pub with_available :
      AuctionCellRep
      → List Container
      → ExecutorResources
      → M S (Result ExecutorError (CellState × Bool))
  unfolding with_drivers
  with_available a containers total = ask env remaining_resources >>= λ r.
      on_result r (with_drivers a containers total) (λ e. pure (err e))

  -- The same, from the total resources on.
  unfoldable pub with_total :
      AuctionCellRep → List Container → M S (Result ExecutorError (CellState × Bool))
  unfolding with_available
  with_total a containers =
      ask env total_resources >>= λ r. on_result r (with_available a containers) (λ e. pure (err e))

  unfoldable pub state : AuctionCellRep → M S (Result ExecutorError (CellState × Bool))
  unfolding with_total
  state a = ask env list_containers >>= λ r. on_result r (with_total a) (λ e. pure (err e))
