-- ===== src/Conversion/Runs.antt =====
-- conversion_helpers.go: the executor's run requests from the BBS's desired LRPs and tasks.
use rep.Base.{ℕ, ◌%◌, ◌^◌, String, ◌==◌, List, [], ◌∷◌, Option, none, some}
use rep.Base.Tests.{if◌then◌else◌}
use rep.Base.Int.{pos, residue, half64}
use rep.Base.Result.{Result, ok, err}
use rep.Cell.{ActualLrpKey}
use rep.Models.{
  ActualLrpInstanceKey, PortMapping, CachedDependency, VolumeMount, BindMountMode, mode_ro, mode_rw,
  BindMount, DiskLimitScope, exclusive_disk_limit, total_disk_limit, DesiredLrp, TaskDefinition,
  RunRequest, Message,
}
use rep.Services.{Library}
use rep.Conversion.Tags.{
  ConversionError, invalid_url, invalid_mount_config, unrecognized_mount_mode,
  preloaded_root_fs_scheme, result_file_tag,
}

unfoldable pub convert_port_mappings : List ℕ → List PortMapping
convert_port_mappings [] = []
convert_port_mappings (port ∷ ports) =
    record { container_port = port % 2 ^ 16; host_port = 0 } ∷ convert_port_mappings ports

unfoldable pub disk_scope_for_root_fs : Library → String → Result ConversionError DiskLimitScope
disk_scope_for_root_fs lib root_fs = elim (lib.parse_url root_fs) [
  | none ↦ err invalid_url
  | some url ↦
      if url.scheme == preloaded_root_fs_scheme
      then ok exclusive_disk_limit
      else ok total_disk_limit
]

-- The config of a mount: nil where MountConfig is empty.
unfoldable pub mount_config_of : Library → String → Result ConversionError (Option Message)
mount_config_of lib text = if text == "" then ok none else elim (lib.unmarshal_config text) [
  | none ↦ err invalid_mount_config
  | some config ↦ ok (some config)
]

unfoldable pub mount_mode_of : String → Result ConversionError BindMountMode
mount_mode_of mode =
    if mode == "r"
    then ok mode_ro
    else if mode == "rw"
    then ok mode_rw
    else err unrecognized_mount_mode

infixl 5 ◌>>=◌
abbrev pub ◌>>=◌ {ℓ κ} :
    {A : Type ℓ} {B : Type κ}
    → Result ConversionError A
    → (A → Result ConversionError B)
    → Result ConversionError B
ok a >>= f = f a
err e >>= f = err e

unfoldable pub convert_volume_mount : Library → VolumeMount → Result ConversionError BindMount
unfolding mount_config_of mount_mode_of
convert_volume_mount lib mount = do
  config ← mount_config_of lib mount.mount_config
  mode ← mount_mode_of mount.mode
  ok (record {
    driver = mount.driver;
    volume_id = mount.volume_id;
    container_path = mount.container_dir;
    mode = mode;
    config = config;
  })

unfoldable pub convert_volume_mounts :
    Library → List VolumeMount → Result ConversionError (List BindMount)
convert_volume_mounts lib [] = ok []
convert_volume_mounts lib (mount ∷ mounts) =
    let rest = convert_volume_mounts lib mounts in
    do converted ← convert_volume_mount lib mount; more ← rest; ok (converted ∷ more)

unfoldable pub convert_certificate_properties : Option (List String) → List String
convert_certificate_properties none = []
convert_certificate_properties (some organizational_unit) = organizational_unit

unfoldable pub convert_cached_dependency : CachedDependency → CachedDependency
convert_cached_dependency dep = record {
  name = dep.name;
  from = dep.from;
  to = dep.to;
  cache_key = dep.cache_key;
  log_source = dep.log_source;
  checksum_value = dep.checksum_value;
  checksum_algorithm = dep.checksum_algorithm;
}

unfoldable pub convert_cached_dependencies : List CachedDependency → List CachedDependency
unfolding convert_cached_dependency
convert_cached_dependencies [] = []
convert_cached_dependencies (dep ∷ deps) =
    convert_cached_dependency dep ∷ convert_cached_dependencies deps

unfoldable pub convert_network : Option Message → Option Message
convert_network none = none
convert_network (some properties) = some properties

unfoldable pub new_run_request_from_desired_lrp :
    Library
    → String
    → DesiredLrp
    → ActualLrpKey
    → ActualLrpInstanceKey
    → Result ConversionError RunRequest
unfolding convert_certificate_properties convert_cached_dependencies convert_network
new_run_request_from_desired_lrp lib container_guid desired lrp_key instance_key = do
  disk_scope ← disk_scope_for_root_fs lib desired.root_fs
  mounts ← convert_volume_mounts lib desired.volume_mounts
  ok (record {
    guid = container_guid;
    run_info = record {
      cpu_weight = desired.cpu_weight;
      disk_scope = disk_scope;
      ports = convert_port_mappings desired.ports;
      log_config = record {
        guid = desired.log_guid;
        index = lrp_key.index;
        source_name = desired.log_source;
      };
      metrics_config = record { guid = desired.metrics_guid; index = lrp_key.index };
      start_timeout_ms = residue half64 desired.start_timeout_ms;
      privileged = desired.privileged;
      cached_dependencies = convert_cached_dependencies desired.cached_dependencies;
      setup = desired.setup;
      action = desired.action;
      monitor = desired.monitor;
      check_definition = desired.check_definition;
      egress_rules = desired.egress_rules;
      env =
          record { name = "INSTANCE_GUID"; value = instance_key.instance_guid }
          ∷ record { name = "INSTANCE_INDEX"; value = lib.itoa lrp_key.index }
          ∷ record { name = "CF_INSTANCE_GUID"; value = instance_key.instance_guid }
          ∷ record { name = "CF_INSTANCE_INDEX"; value = lib.itoa lrp_key.index }
          ∷ lib.environment_variables_from_model desired.environment_variables;
      trusted_system_certificates_path = desired.trusted_system_certificates_path;
      volume_mounts = mounts;
      network = convert_network desired.network;
      organizational_unit = convert_certificate_properties desired.certificate_properties;
      image_username = desired.image_username;
      image_password = desired.image_password;
    };
    tags = [];
  })

unfoldable pub new_run_request_from_task :
    Library → TaskDefinition → Result ConversionError RunRequest
unfolding convert_certificate_properties convert_cached_dependencies convert_network
new_run_request_from_task lib task = do
  disk_scope ← disk_scope_for_root_fs lib task.root_fs
  mounts ← convert_volume_mounts lib task.volume_mounts
  ok (record {
    guid = task.task_guid;
    run_info = record {
      cpu_weight = task.cpu_weight;
      disk_scope = disk_scope;
      ports = [];
      log_config = record { guid = task.log_guid; index = pos 0; source_name = task.log_source };
      metrics_config = record { guid = task.metrics_guid; index = pos 0 };
      start_timeout_ms = 0;
      privileged = task.privileged;
      cached_dependencies = convert_cached_dependencies task.cached_dependencies;
      setup = none;
      action = task.action;
      monitor = none;
      check_definition = none;
      egress_rules = task.egress_rules;
      env = lib.environment_variables_from_model task.environment_variables;
      trusted_system_certificates_path = task.trusted_system_certificates_path;
      volume_mounts = mounts;
      network = convert_network task.network;
      organizational_unit = convert_certificate_properties task.certificate_properties;
      image_username = task.image_username;
      image_password = task.image_password;
    };
    tags = (result_file_tag, task.result_file) ∷ [];
  })
