-- ===== src/Conversion/Tags.antt =====
-- conversion_helpers.go: keys, network information and guids from containers and their tags.
use rep.Base.{String, List, [], ◌∷◌, none, some}
use rep.Base.Tests.{if◌then◌else◌}
use rep.Base.Int.{int32}
use rep.Base.GoMap.{GoMap, lookup}
use rep.Base.Result.{Result, ok, err}
use rep.Cell.{ActualLrpKey}
use rep.Models.{Tags, ActualLrpInstanceKey, Container, PortMapping, ActualLrpNetInfo}
use rep.Services.{Library}

abbrev pub lifecycle_tag : String
lifecycle_tag = "lifecycle"

abbrev pub result_file_tag : String
result_file_tag = "result-file"

abbrev pub domain_tag : String
domain_tag = "domain"

abbrev pub task_lifecycle : String
task_lifecycle = "task"

abbrev pub lrp_lifecycle : String
lrp_lifecycle = "lrp"

abbrev pub process_guid_tag : String
process_guid_tag = "process-guid"

abbrev pub instance_guid_tag : String
instance_guid_tag = "instance-guid"

abbrev pub process_index_tag : String
process_index_tag = "process-index"

-- models.PreloadedRootFSScheme and models.PreloadedOCIRootFSScheme of the bbs.
abbrev pub preloaded_root_fs_scheme : String
preloaded_root_fs_scheme = "preloaded"

abbrev pub preloaded_oci_root_fs_scheme : String
preloaded_oci_root_fs_scheme = "preloaded+layer"

pub data ConversionError : Type 0 where
  container_missing_tags invalid_process_index invalid_model : ConversionError
  invalid_url invalid_mount_config unrecognized_mount_mode : ConversionError

-- tags[k] of a map that is not nil: "" where the key is missing.
unfoldable pub tag_of : GoMap String → String → String
tag_of tags k = elim (lookup k tags) [ none ↦ "" | some v ↦ v ]

-- tags[k], also of a nil map.
unfoldable pub tag : Tags → String → String
unfolding tag_of
tag none k = ""
tag (some tags) k = tag_of tags k

unfoldable pub actual_lrp_key_from_tags : Library → Tags → Result ConversionError ActualLrpKey
actual_lrp_key_from_tags lib none = err container_missing_tags
actual_lrp_key_from_tags lib (some tags) = elim (lib.atoi (tag_of tags process_index_tag)) [
  | none ↦ err invalid_process_index
  | some process_index ↦
      let key : ActualLrpKey = record {
        process_guid = tag_of tags process_guid_tag;
        index = int32 process_index;
        domain = tag_of tags domain_tag;
      } in
      if lib.key_valid key then ok key else err invalid_model
]

unfoldable pub actual_lrp_instance_key_from_container :
    Library → Container → String → Result ConversionError ActualLrpInstanceKey
actual_lrp_instance_key_from_container lib container cell_id = elim container.tags [
  | none ↦ err container_missing_tags
  | some tags ↦
      let key : ActualLrpInstanceKey = record {
        instance_guid = tag_of tags instance_guid_tag;
        cell_id = cell_id;
      } in
      if lib.instance_key_valid key then ok key else err invalid_model
]

-- uint32 of two uint16 ports.
net_ports : List PortMapping → List PortMapping
net_ports [] = []
net_ports (port ∷ ports) =
    record { container_port = port.container_port; host_port = port.host_port } ∷ net_ports ports

unfoldable pub actual_lrp_net_info_from_container :
    Library → Container → Result ConversionError ActualLrpNetInfo
unfolding net_ports
actual_lrp_net_info_from_container lib container =
    let info : ActualLrpNetInfo = record {
      address = container.external_ip;
      instance_address = container.internal_ip;
      ports = net_ports container.ports;
    } in
    if lib.net_info_valid info then ok info else err invalid_model

unfoldable pub lrp_container_guid : String → String → String
lrp_container_guid process_guid instance_guid = instance_guid
