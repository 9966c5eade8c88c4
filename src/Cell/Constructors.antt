-- ===== src/Cell/Constructors.antt =====
-- resources.go: the constructors of resources, constraints, LRPs and tasks, their copies, and the stack path
-- map read from JSON, over encoding/json as a parameter.
use rep.Base.{String, List}
use rep.Base.Int.{ℤ}
use rep.Base.GoMap.{GoMap}
use rep.Base.Result.{Result}
use rep.Cell.{Resources, Resource, PlacementConstraint, ActualLrpKey, Lrp, Task}

unfoldable pub new_resources : ℤ → ℤ → ℤ → Resources
new_resources memory_mb disk_mb container_count = record {
  memory_mb = memory_mb;
  disk_mb = disk_mb;
  containers = container_count;
}

unfoldable pub copy_resources : Resources → Resources
copy_resources r = r

unfoldable pub new_resource : ℤ → ℤ → ℤ → Resource
new_resource memory_mb disk_mb max_pids = record {
  memory_mb = memory_mb;
  disk_mb = disk_mb;
  max_pids = max_pids;
}

unfoldable pub copy_resource : Resource → Resource
unfolding new_resource
copy_resource r = new_resource r.memory_mb r.disk_mb r.max_pids

unfoldable pub new_placement_constraint : String → List String → List String → PlacementConstraint
new_placement_constraint root_fs placement_tags volume_drivers = record {
  placement_tags = placement_tags;
  volume_drivers = volume_drivers;
  root_fs = root_fs;
}

unfoldable pub new_lrp : ActualLrpKey → Resource → PlacementConstraint → Lrp
new_lrp key res pc = record { key = key; constraint = pc; resource = res }

unfoldable pub copy_lrp : Lrp → Lrp
unfolding new_lrp
copy_lrp lrp = new_lrp lrp.key lrp.resource lrp.constraint

unfoldable pub new_task : String → String → Resource → PlacementConstraint → Task
new_task guid domain res pc = record {
  task_guid = guid;
  domain = domain;
  constraint = pc;
  resource = res;
}

unfoldable pub copy_task : Task → Task
copy_task task = task

-- UnmarshalStackPathMap.
unfoldable pub unmarshal_stack_path_map :
    {E : Type 0} → (String → Result E (GoMap String)) → String → Result E (GoMap String)
unmarshal_stack_path_map unmarshal payload = unmarshal payload
