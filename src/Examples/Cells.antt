-- ===== src/Examples/Cells.antt =====
-- The theorems on cells and on the conversion of definitions, applied.
use rep.Cell.Problems.{error_text, sort_strings, insert, le_text, join}
use rep.Base.{false, ◌≡◌, refl, [], ◌∷◌, arith}
use rep.Base.Int.{pos, wrap}
use rep.Cell.{
  Resources, Resource, PlacementConstraint, Lrp, Task, CellState, problems, resource_match, add_lrp,
  add_task, subtract, problem_set, insufficient, resource_valid,
}
use rep.Cell.Capacity.{Fits, IsSound}
use rep.Cell.Placement.{Places, start, lrp, task, Places-IsSound, Conserves, Places-Conserves}
use rep.Models.{RunRequest}
use rep.Conversion.Runs.{
  disk_scope_for_root_fs, convert_volume_mount, mount_config_of, mount_mode_of,
  convert_volume_mounts, new_run_request_from_desired_lrp,
}
use rep.Examples.{library, desired_lrp, lrp_key, instance_key, IsOk, value}

abbrev resources : Resources
resources = record { memory_mb = pos 100; disk_mb = pos 50; containers = pos 2 }

abbrev cell : CellState
cell = record {
  root_fs_providers = [];
  available_resources = resources;
  total_resources = resources;
  lrps = [];
  tasks = [];
  starting_container_count = pos 0;
  zone = "z1";
  evacuating = false;
  volume_drivers = "nfs" ∷ "smb" ∷ [];
  placement_tags = "gpu" ∷ [];
  optional_placement_tags = "ssd" ∷ [];
}

abbrev small : Resource
small = record { memory_mb = pos 40; disk_mb = pos 10; max_pids = pos 8 }

abbrev constraint : PlacementConstraint
constraint = record { placement_tags = []; volume_drivers = []; root_fs = "preloaded:linux" }

abbrev small_lrp : Lrp
small_lrp = record { key = lrp_key; constraint = constraint; resource = small }

abbrev small_task : Task
small_task = record {
  task_guid = "task";
  domain = "jobs";
  constraint = constraint;
  resource = small;
}

cell-IsSound : IsSound cell
cell-IsSound = record {
  memory = omega arith;
  memory_word = (omega arith, omega arith);
  disk = omega arith;
  disk_word = (omega arith, omega arith);
  containers = omega arith;
  containers_word = (omega arith, omega arith);
}

small-Fits : Fits cell small
small-Fits = record { memory = omega arith; disk = omega arith; container = omega arith }

placed : Places cell (add_task (add_lrp cell small_lrp) small_task)
unfolding add_lrp resource_match problems problem_set insufficient resource_valid subtract wrap
placed = task small_task (lrp small_lrp start refl refl) refl refl

Places-IsSound_example : IsSound (add_task (add_lrp cell small_lrp) small_task)
Places-IsSound_example = Places-IsSound cell-IsSound placed

Places-Conserves_example : Conserves cell (add_task (add_lrp cell small_lrp) small_task)
Places-Conserves_example = Places-Conserves cell-IsSound placed

pub request-IsOk :
    IsOk (new_run_request_from_desired_lrp library "instance" desired_lrp lrp_key instance_key)
unfolding new_run_request_from_desired_lrp disk_scope_for_root_fs convert_volume_mounts
    convert_volume_mount mount_config_of mount_mode_of
request-IsOk = tt

abbrev pub request : RunRequest
request =
    value (new_run_request_from_desired_lrp library "instance" desired_lrp lrp_key instance_key)
      request-IsOk

-- The text itself.
two_problems :
    error_text ("memory" ∷ "containers" ∷ []) ≡ "insufficient resources: containers, memory"
unfolding error_text sort_strings insert le_text join
two_problems = refl
