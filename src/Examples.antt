-- ===== src/Examples.antt =====
-- Concrete services, containers and cells, at which the theorems of the other modules are applied.
-- Their children hold those applications.
pub mod Cells
pub mod Processors
pub mod Batches
pub mod Auction
pub mod Exit
pub mod Http
pub mod Scores
pub mod Wire
pub mod Loops
pub mod Announced
pub mod Served
pub mod Convergence
pub mod Evacuating
pub mod Command
pub mod Placed
pub mod Drains
use rep.Base.{
  ℕ, zero, suc, String, ◌==◌, Bool, true, false, ◌≡◌, refl, List, [], ◌∷◌, Option, none, some, not,
}
use rep.Base.Tests.{if◌then◌else◌}
use rep.Base.Int.{ℤ, pos, negsuc}
use rep.Base.Result.{Result, ok, err}
use rep.Rootfs.{Url}
use rep.Cell.{Resources, Resource, PlacementConstraint, ActualLrpKey, Lrp, Task, Work, CellState}
use rep.Models.{
  ActualLrpInstanceKey, ActualLrp, ActualLrpGroup, Container, ContainerState, reserved, running,
  completed, DesiredLrp, TaskDefinition, VolumeMount, AllocationRequest, ExecutorResources,
}
use rep.Services.{
  BbsError, resource_not_found, actual_lrp_cannot_be_started, ExecutorError, container_not_found,
  Call, Reply, Library, Env, World, list_containers, total_resources, remaining_resources,
  volume_drivers, healthy, get_container, stop_container, delete_container, run_container,
  get_files, allocate_containers, claim_actual_lrp, start_actual_lrp, crash_actual_lrp,
  remove_actual_lrp, remove_evacuating_actual_lrp, evacuate_claimed_actual_lrp,
  evacuate_stopped_actual_lrp, evacuate_running_actual_lrp, evacuate_crashed_actual_lrp,
  desired_lrp_by_process_guid, actual_lrp_groups, start_task, task_by_guid, tasks_by_cell_id,
  complete_task, fail_task, generate_instance_guid, send_metric, send_duration, ping, now,
  await_timer, evacuate, evacuating,
}

abbrev pub parse_url : String → Option Url
parse_url s =
    if s == "preloaded:linux"
    then some (record { scheme = "preloaded"; path_opaque = "linux"; raw_query = "" })
    else if s == "docker:///app"
    then some (record { scheme = "docker"; path_opaque = ""; raw_query = "" })
    else none

abbrev pub library : Library
library = record {
  parse_url = parse_url;
  atoi = λ s. if s == "0" then some (pos 0) else if s == "1" then some (pos 1) else none;
  itoa = λ i. elim i [ pos n ↦ elim n [ zero ↦ "0" | suc m ↦ "1" ] | negsuc n ↦ "-1" ];
  unmarshal_config = λ s. some [];
  key_valid = λ k. not (k.process_guid == "");
  instance_key_valid = λ k. not (k.instance_guid == "");
  net_info_valid = λ i. true;
  environment_variables_from_model = λ m. [];
}

abbrev pub mount : VolumeMount
mount = record {
  driver = "nfs";
  container_dir = "/data";
  mode = "rw";
  volume_id = "volume";
  mount_config = "{}";
}

abbrev pub desired_lrp : DesiredLrp
desired_lrp = record {
  root_fs = "preloaded:linux";
  volume_mounts = mount ∷ [];
  cpu_weight = 5;
  ports = 8080 ∷ [];
  log_guid = "log";
  log_source = "APP";
  metrics_guid = "metrics";
  start_timeout_ms = pos 1000;
  privileged = false;
  cached_dependencies = [];
  setup = none;
  action = none;
  monitor = none;
  check_definition = none;
  egress_rules = [];
  environment_variables = [];
  trusted_system_certificates_path = "/etc/certs";
  network = none;
  certificate_properties = none;
  image_username = "";
  image_password = "";
}

abbrev pub task_named : String → TaskDefinition
task_named guid = record {
  task_guid = guid;
  root_fs = "preloaded:linux";
  volume_mounts = [];
  cpu_weight = 1;
  privileged = false;
  log_guid = "log";
  log_source = "TASK";
  metrics_guid = "metrics";
  result_file = "/result";
  cached_dependencies = [];
  action = none;
  egress_rules = [];
  environment_variables = [];
  trusted_system_certificates_path = "/etc/certs";
  network = none;
  certificate_properties = none;
  image_username = "";
  image_password = "";
}

abbrev pub lrp_key : ActualLrpKey
lrp_key = record { process_guid = "process"; index = pos 1; domain = "apps" }

abbrev pub instance_key : ActualLrpInstanceKey
instance_key = record { instance_guid = "instance"; cell_id = "cell" }

abbrev pub actual_lrp : ActualLrp
actual_lrp = record { key = lrp_key; instance_key = instance_key }

-- The container of the LRP, in a given state.
abbrev pub lrp_container : ContainerState → Container
lrp_container state = record {
  guid = "instance";
  state = state;
  tags = some (
      ("lifecycle", "lrp")
      ∷ ("process-guid", "process")
      ∷ ("process-index", "1")
      ∷ ("domain", "apps")
      ∷ ("instance-guid", "instance")
      ∷ []);
  memory_mb = pos 64;
  disk_mb = pos 128;
  ports = [];
  external_ip = "10.0.0.1";
  internal_ip = "192.168.0.1";
  run_result = record { failed = true; failure_reason = "crashed"; stopped = false };
}

-- The container of a task with a result file, in a given state.
abbrev pub task_container : ContainerState → Container
task_container state = record {
  guid = "task";
  state = state;
  tags = some (("lifecycle", "task") ∷ ("result-file", "/result") ∷ ("domain", "jobs") ∷ []);
  memory_mb = pos 32;
  disk_mb = pos 16;
  ports = [];
  external_ip = "";
  internal_ip = "";
  run_result = record { failed = false; failure_reason = ""; stopped = false };
}

abbrev pub executor_resources : ExecutorResources
executor_resources = record { memory_mb = pos 1024; disk_mb = pos 2048; containers = pos 256 }

-- The outside world tells whether the cell evacuates, and no call changes it.
abbrev pub reply : (c : Call) → Bool → Reply c
reply list_containers s = ok (lrp_container reserved ∷ task_container completed ∷ [])
reply total_resources s = ok executor_resources
reply remaining_resources s = ok executor_resources
reply volume_drivers s = ok ("nfs" ∷ [])
reply healthy s = true
reply (get_container guid) s =
    if guid == "instance" then ok (lrp_container running) else err container_not_found
reply (stop_container _) s = ok tt
reply (delete_container _) s = err container_not_found
reply (run_container _) s = err container_not_found
reply (get_files _ _) s = ok (record { next = true; read = λ n. 7 ∷ 8 ∷ [] })
reply (allocate_containers requests) s = ok requests
reply (claim_actual_lrp _ _ _) s = if s then err resource_not_found else ok tt
reply (start_actual_lrp _ _ _) s = err actual_lrp_cannot_be_started
reply (crash_actual_lrp _ _ _) s = ok tt
reply (remove_actual_lrp _ _ _) s = ok tt
reply (remove_evacuating_actual_lrp _ _) s = ok tt
reply (evacuate_claimed_actual_lrp _ _) s = (false, none)
reply (evacuate_stopped_actual_lrp _ _) s = (false, none)
reply (evacuate_running_actual_lrp _ _ _ _) s = (true, none)
reply (evacuate_crashed_actual_lrp _ _ _) s = (false, none)
reply (desired_lrp_by_process_guid _) s = ok desired_lrp
reply (actual_lrp_groups _) s =
    ok (record { instance_lrp = some actual_lrp; evacuating_lrp = some actual_lrp } ∷ [])
reply (start_task _ _) s = ok true
reply (task_by_guid guid) s = ok (task_named guid)
reply (tasks_by_cell_id _) s = ok (task_named "task" ∷ task_named "lost" ∷ [])
reply (complete_task _ _ _ _ _) s = ok tt
reply (fail_task _ _) s = ok tt
reply generate_instance_guid s = some "instance"
reply evacuating s = s
reply (send_metric _ _) s = ok tt
reply (send_duration _ _) s = ok tt
reply now s = pos 0
reply ping s = ok tt
reply (await_timer _) s = tt
reply evacuate s = tt

abbrev pub env : Env Bool
env = record { lib = library; answer = λ c s. (reply c s, s) }

-- The world of a cell that does not evacuate, and of one that does.
abbrev pub steady : World Bool
steady = record { outside = false; calls = [] }

abbrev pub draining : World Bool
draining = record { outside = true; calls = [] }

-- The value of a result that is one.
abbrev pub IsOk : {E A : Type 0} → Result E A → Type 0
IsOk (ok _) = Unit
IsOk (err _) = ⊥

abbrev pub value : {E A : Type 0} (r : Result E A) → IsOk r → A
value (ok a) h = a
value (err e) h = absurd h

pub value-ok : {E A : Type 0} (r : Result E A) (h : IsOk r) → r ≡ ok (value r h)
value-ok (ok a) h = refl
value-ok (err e) h = absurd h
