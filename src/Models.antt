-- ===== src/Models.antt =====
-- The data of code.cloudfoundry.org/bbs/models and code.cloudfoundry.org/executor that the program
-- reads or builds, with the fields that it mentions. A message that is only passed on stands as its
-- encoding.
use rep.Base.{ℕ, String, Bool, List, Option}
use rep.Base.Int.{ℤ}
use rep.Base.GoMap.{GoMap}
use rep.Cell.{ActualLrpKey}

abbrev pub Message : Type 0
Message = List ℕ

-- executor.Tags, which may be nil.
abbrev pub Tags : Type 0
Tags = Option (GoMap String)

pub record ActualLrpInstanceKey : Type 0 where
  pub instance_guid : String
  pub cell_id : String

pub record ActualLrp : Type 0 where
  pub key : ActualLrpKey
  pub instance_key : ActualLrpInstanceKey

pub record ActualLrpGroup : Type 0 where
  pub instance_lrp : Option ActualLrp
  pub evacuating_lrp : Option ActualLrp

pub data ContainerState : Type 0 where
  reserved initializing created running completed : ContainerState
  other_state : String → ContainerState

-- executor.PortMapping (uint16 ports) and models.PortMapping (uint32 ports).
pub record PortMapping : Type 0 where
  pub container_port : ℕ
  pub host_port : ℕ

pub record RunResult : Type 0 where
  pub failed : Bool
  pub failure_reason : String
  pub stopped : Bool

pub record Container : Type 0 where
  pub guid : String
  pub state : ContainerState
  pub tags : Tags
  pub memory_mb : ℤ
  pub disk_mb : ℤ
  pub ports : List PortMapping
  pub external_ip : String
  pub internal_ip : String
  pub run_result : RunResult

-- The arguments of models.NewActualLRPNetInfo.
pub record ActualLrpNetInfo : Type 0 where
  pub address : String
  pub instance_address : String
  pub ports : List PortMapping

pub record CachedDependency : Type 0 where
  pub name : String
  pub from : String
  pub to : String
  pub cache_key : String
  pub log_source : String
  pub checksum_value : String
  pub checksum_algorithm : String

-- models.VolumeMount, with its Shared device.
pub record VolumeMount : Type 0 where
  pub driver : String
  pub container_dir : String
  pub mode : String
  pub volume_id : String
  pub mount_config : String

pub record DesiredLrp : Type 0 where
  pub root_fs : String
  pub volume_mounts : List VolumeMount
  pub cpu_weight : ℕ
  pub ports : List ℕ
  pub log_guid : String
  pub log_source : String
  pub metrics_guid : String
  pub start_timeout_ms : ℤ
  pub privileged : Bool
  pub cached_dependencies : List CachedDependency
  pub setup : Option Message
  pub action : Option Message
  pub monitor : Option Message
  pub check_definition : Option Message
  pub egress_rules : List Message
  pub environment_variables : List Message
  pub trusted_system_certificates_path : String
  pub network : Option Message
  pub certificate_properties : Option (List String)
  pub image_username : String
  pub image_password : String

-- models.Task.
pub record TaskDefinition : Type 0 where
  pub task_guid : String
  pub root_fs : String
  pub volume_mounts : List VolumeMount
  pub cpu_weight : ℕ
  pub privileged : Bool
  pub log_guid : String
  pub log_source : String
  pub metrics_guid : String
  pub result_file : String
  pub cached_dependencies : List CachedDependency
  pub action : Option Message
  pub egress_rules : List Message
  pub environment_variables : List Message
  pub trusted_system_certificates_path : String
  pub network : Option Message
  pub certificate_properties : Option (List String)
  pub image_username : String
  pub image_password : String

pub data BindMountMode : Type 0 where
  mode_ro mode_rw : BindMountMode

-- executor.VolumeMount.
pub record BindMount : Type 0 where
  pub driver : String
  pub volume_id : String
  pub container_path : String
  pub mode : BindMountMode
  pub config : Option Message

pub data DiskLimitScope : Type 0 where
  exclusive_disk_limit total_disk_limit : DiskLimitScope

pub record EnvironmentVariable : Type 0 where
  pub name : String
  pub value : String

pub record LogConfig : Type 0 where
  pub guid : String
  pub index : ℤ
  pub source_name : String

pub record MetricsConfig : Type 0 where
  pub guid : String
  pub index : ℤ

pub record RunInfo : Type 0 where
  pub cpu_weight : ℕ
  pub disk_scope : DiskLimitScope
  pub ports : List PortMapping
  pub log_config : LogConfig
  pub metrics_config : MetricsConfig
  pub start_timeout_ms : ℕ
  pub privileged : Bool
  pub cached_dependencies : List CachedDependency
  pub setup : Option Message
  pub action : Option Message
  pub monitor : Option Message
  pub check_definition : Option Message
  pub egress_rules : List Message
  pub env : List EnvironmentVariable
  pub trusted_system_certificates_path : String
  pub volume_mounts : List BindMount
  pub network : Option Message
  pub organizational_unit : List String
  pub image_username : String
  pub image_password : String

pub record RunRequest : Type 0 where
  pub guid : String
  pub run_info : RunInfo
  pub tags : GoMap String

-- executor.Resource and executor.AllocationRequest.
pub record ContainerResource : Type 0 where
  pub memory_mb : ℤ
  pub disk_mb : ℤ
  pub max_pids : ℤ
  pub root_fs_path : String

pub record AllocationRequest : Type 0 where
  pub guid : String
  pub resource : ContainerResource
  pub tags : GoMap String

pub record ExecutorResources : Type 0 where
  pub memory_mb : ℤ
  pub disk_mb : ℤ
  pub containers : ℤ
