-- ===== src/Conversion/Requests.antt =====
-- What a run request for a desired LRP asks for, field by field (NewRunRequestFromDesiredLRP).
use rep.Base.{
  ℕ, ◌%◌, ◌^◌, String, ◌≡◌, refl, ap, subst, inl, inr, List, [], ◌∷◌, map, Option, none, some,
  arith,
}
use rep.Base.Int.{residue, half64}
use rep.Base.Result.{ok, ok-injective, Result-cases}
use rep.Cell.{ActualLrpKey}
use rep.Models.{
  ActualLrpInstanceKey, CachedDependency, DesiredLrp, DiskLimitScope, BindMount, Message,
  RunRequest, PortMapping, EnvironmentVariable,
}
use rep.Services.{Library}
use rep.Conversion.Mounts.{convert_volume_mounts_iff}
use rep.Conversion.Runs.{
  disk_scope_for_root_fs, convert_volume_mounts, convert_cached_dependency,
  convert_cached_dependencies, convert_port_mappings, convert_network,
  convert_certificate_properties, new_run_request_from_desired_lrp,
}
use rep.Conversion.Binds.{
  IsScope, AreMounts, disk_scope_for_root_fs-IsScope, IsScope-disk_scope_for_root_fs,
  Converted-AreMounts, AreMounts-Converted,
}

cached_dependencies_lem : (deps : List CachedDependency) → convert_cached_dependencies deps ≡ deps
unfolding convert_cached_dependencies convert_cached_dependency
cached_dependencies_lem [] = refl
cached_dependencies_lem (dep ∷ deps) = ap (λ ds. dep ∷ ds) (cached_dependencies_lem deps)

network_lem : (network : Option Message) → convert_network network ≡ network
unfolding convert_network
network_lem none = refl
network_lem (some properties) = refl

-- A port of the container, on a host port that the executor chooses.
abbrev pub mapped : ℕ → PortMapping
mapped port = record { container_port = port % 2 ^ 16; host_port = 0 }

port_mappings_lem : (ports : List ℕ) → convert_port_mappings ports ≡ map mapped ports
unfolding convert_port_mappings
port_mappings_lem [] = refl
port_mappings_lem (port ∷ ports) = ap (λ ms. mapped port ∷ ms) (port_mappings_lem ports)

abbrev pub organizational_unit_of : Option (List String) → List String
organizational_unit_of none = []
organizational_unit_of (some organizational_unit) = organizational_unit

certificate_properties_lem :
    (properties : Option (List String))
    → convert_certificate_properties properties ≡ organizational_unit_of properties
unfolding convert_certificate_properties
certificate_properties_lem none = refl
certificate_properties_lem (some organizational_unit) = refl

abbrev pub variable : String → String → EnvironmentVariable
variable name value = record { name = name; value = value }

-- A run request can be made of the desired LRP: its rootfs has a disk scope, and each of its volume mounts
-- can be bound.
abbrev pub Runnable : Library → DesiredLrp → Type 0
Runnable lib desired =
    ((scope : DiskLimitScope) × IsScope lib desired.root_fs scope)
    × ((mounts : List BindMount) × AreMounts lib desired.volume_mounts mounts)

-- The request runs the desired LRP in the container `guid`, as the instance with these keys.
pub record Runs (lib : Library) (guid : String) (desired : DesiredLrp) (key : ActualLrpKey)
    (instance_key : ActualLrpInstanceKey) (req : RunRequest) : Type 0 where
  pub guid_kept : req.guid ≡ guid
  pub tags : req.tags ≡ []
  pub cpu_weight : req.run_info.cpu_weight ≡ desired.cpu_weight
  pub scope : IsScope lib desired.root_fs req.run_info.disk_scope
  pub ports : req.run_info.ports ≡ map mapped desired.ports
  pub log_guid : req.run_info.log_config.guid ≡ desired.log_guid
  pub log_index : req.run_info.log_config.index ≡ key.index
  pub log_source : req.run_info.log_config.source_name ≡ desired.log_source
  pub metrics_guid : req.run_info.metrics_config.guid ≡ desired.metrics_guid
  pub metrics_index : req.run_info.metrics_config.index ≡ key.index
  pub start_timeout : req.run_info.start_timeout_ms ≡ residue half64 desired.start_timeout_ms
  pub privileged : req.run_info.privileged ≡ desired.privileged
  pub cached_dependencies : req.run_info.cached_dependencies ≡ desired.cached_dependencies
  pub setup : req.run_info.setup ≡ desired.setup
  pub action : req.run_info.action ≡ desired.action
  pub monitor : req.run_info.monitor ≡ desired.monitor
  pub check_definition : req.run_info.check_definition ≡ desired.check_definition
  pub egress_rules : req.run_info.egress_rules ≡ desired.egress_rules
  pub env :
      req.run_info.env
      ≡ variable "INSTANCE_GUID" instance_key.instance_guid
        ∷ variable "INSTANCE_INDEX" (lib.itoa key.index)
        ∷ variable "CF_INSTANCE_GUID" instance_key.instance_guid
        ∷ variable "CF_INSTANCE_INDEX" (lib.itoa key.index)
        ∷ lib.environment_variables_from_model desired.environment_variables
  pub certificates :
      req.run_info.trusted_system_certificates_path ≡ desired.trusted_system_certificates_path
  pub mounts : AreMounts lib desired.volume_mounts req.run_info.volume_mounts
  pub network : req.run_info.network ≡ desired.network
  pub organizational_unit :
      req.run_info.organizational_unit ≡ organizational_unit_of desired.certificate_properties
  pub image_username : req.run_info.image_username ≡ desired.image_username
  pub image_password : req.run_info.image_password ≡ desired.image_password

module _ (lib : Library) (guid : String) (desired : DesiredLrp) (key : ActualLrpKey)
    (instance_key : ActualLrpInstanceKey) where
  made_with-Runs :
      (req : RunRequest) (scope : DiskLimitScope) (mounts : List BindMount)
      → disk_scope_for_root_fs lib desired.root_fs ≡ ok scope
      → convert_volume_mounts lib desired.volume_mounts ≡ ok mounts
      → new_run_request_from_desired_lrp lib guid desired key instance_key ≡ ok req
      → Runs lib guid desired key instance_key req
  unfolding new_run_request_from_desired_lrp
  made_with-Runs req scope mounts scoped mounted h =
      subst (Runs lib guid desired key instance_key)
        (ok-injective _ req (rw (scoped, mounted) at h))
        (record {
          guid_kept = refl;
          tags = refl;
          cpu_weight = refl;
          scope = disk_scope_for_root_fs-IsScope lib desired.root_fs scope scoped;
          ports = port_mappings_lem desired.ports;
          log_guid = refl;
          log_index = refl;
          log_source = refl;
          metrics_guid = refl;
          metrics_index = refl;
          start_timeout = refl;
          privileged = refl;
          cached_dependencies = cached_dependencies_lem desired.cached_dependencies;
          setup = refl;
          action = refl;
          monitor = refl;
          check_definition = refl;
          egress_rules = refl;
          env = refl;
          certificates = refl;
          mounts =
              Converted-AreMounts lib desired.volume_mounts mounts
                ((convert_volume_mounts_iff lib desired.volume_mounts mounts).0 mounted);
          network = network_lem desired.network;
          organizational_unit = certificate_properties_lem desired.certificate_properties;
          image_username = refl;
          image_password = refl;
        })

  -- A run request that is made asks for what was desired, field by field.
  pub new_run_request_from_desired_lrp-Runs :
      (req : RunRequest)
      → new_run_request_from_desired_lrp lib guid desired key instance_key ≡ ok req
      → Runs lib guid desired key instance_key req
  unfolding new_run_request_from_desired_lrp
  new_run_request_from_desired_lrp-Runs req h =
      elim (Result-cases (disk_scope_for_root_fs lib desired.root_fs)) [
        | inr (e, bad) ↦ absurd (ground arith)
        | inl (scope, scoped) ↦
            elim (Result-cases (convert_volume_mounts lib desired.volume_mounts)) [
              | inr (e, bad) ↦ absurd (ground arith)
              | inl (mounts, mounted) ↦ made_with-Runs req scope mounts scoped mounted h
            ]
      ]

  -- A desired LRP that is Runnable has a run request.
  pub Runnable-made :
      Runnable lib desired
      → (req : RunRequest) × (new_run_request_from_desired_lrp lib guid desired key instance_key
          ≡ ok req)
  unfolding new_run_request_from_desired_lrp
  Runnable-made ((scope, is_scope), (mounts, are_mounts)) =
      let scoped = IsScope-disk_scope_for_root_fs lib desired.root_fs scope is_scope in
      let mounted =
        (convert_volume_mounts_iff lib desired.volume_mounts mounts).1
          (AreMounts-Converted lib desired.volume_mounts mounts are_mounts) in
      rw (scoped, mounted) (_, refl)
