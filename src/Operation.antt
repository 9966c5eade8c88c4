-- ===== src/Operation.antt =====
-- generator/operation.go: the operations that bring the BBS and the containers of the cell in line,
-- one for a container that is there, and four for what the BBS knows and no container matches.
-- Logging is left out.
pub mod Residual
pub mod Isolation
pub mod Stays
use rep.Base.{ℕ, String, ◌==◌, Bool, true, false, Option, none, some}
use rep.Base.Tests.{if◌then◌else◌}
use rep.Cell.{ActualLrpKey}
use rep.Models.{ActualLrpInstanceKey, Container}
use rep.Conversion.Tags.{tag, lifecycle_tag, lrp_lifecycle, task_lifecycle, lrp_container_guid}
use rep.Services.{
  Env, M, pure, ask, ◌>>=◌, ◌>>◌, remove_actual_lrp, remove_evacuating_actual_lrp, fail_task,
}
use rep.Delegate.{fetch_container}
use rep.Processor.{process_lrp}
use rep.Processor.Tasks
use rep.Processor.Tasks.{reason_missing_container}

pub data Operation : Type 0 where
  residual_instance_lrp residual_evacuating_lrp residual_joint_lrp :
      ActualLrpKey → ActualLrpInstanceKey → Operation
  residual_task container_operation : String → Operation

-- Key().
unfoldable pub key : Operation → String
key (residual_instance_lrp lrp_key instance_key) = instance_key.instance_guid
key (residual_evacuating_lrp lrp_key instance_key) = instance_key.instance_guid
key (residual_joint_lrp lrp_key instance_key) = instance_key.instance_guid
key (residual_task task_guid) = task_guid
key (container_operation guid) = guid

-- `if exists { return }`, with what follows.
abbrev pub if_missing : {S : Type 0} → Option Container → M S (Unit {0}) → M S (Unit {0})
if_missing none missing = missing
if_missing (some _) missing = pure tt

module _ {S : Type 0} (env : Env S) where
  -- The start of the Execute methods of the residual operations: GetContainer, and a return if the
  -- container exists.
  unfoldable pub unless_exists : String → M S (Unit {0}) → M S (Unit {0})
  unless_exists guid missing = do found ← fetch_container env guid; if_missing found missing

  unfoldable pub execute_residual_instance : ActualLrpKey → ActualLrpInstanceKey → M S (Unit {0})
  unfolding unless_exists lrp_container_guid
  execute_residual_instance k i =
      unless_exists (lrp_container_guid k.process_guid i.instance_guid) (do
        ask env (
            remove_actual_lrp k.process_guid k.index
              (record { instance_guid = i.instance_guid; cell_id = i.cell_id }))
        pure tt)

  unfoldable pub execute_residual_evacuating : ActualLrpKey → ActualLrpInstanceKey → M S (Unit {0})
  unfolding unless_exists lrp_container_guid
  execute_residual_evacuating k i =
      unless_exists (lrp_container_guid k.process_guid i.instance_guid)
        (do ask env (remove_evacuating_actual_lrp k i); pure tt)

  unfoldable pub execute_residual_joint : ActualLrpKey → ActualLrpInstanceKey → M S (Unit {0})
  unfolding unless_exists lrp_container_guid
  execute_residual_joint k i = unless_exists (lrp_container_guid k.process_guid i.instance_guid) (do
    ask env (remove_actual_lrp k.process_guid k.index i)
    ask env (
        remove_evacuating_actual_lrp
          (record { process_guid = k.process_guid; index = k.index; domain = k.domain })
          (record { instance_guid = i.instance_guid; cell_id = i.cell_id }))
    pure tt)

  unfoldable pub execute_residual_task : String → M S (Unit {0})
  unfolding unless_exists
  execute_residual_task task_guid =
      unless_exists task_guid (do ask env (fail_task task_guid reason_missing_container); pure tt)

  -- The switch of ContainerOperation.Execute on the lifecycle tag.
  unfoldable pub process_lifecycle : String → ℕ → Container → M S (Unit {0})
  process_lifecycle cell_id ttl container =
      let lifecycle = tag container.tags lifecycle_tag in
      if lifecycle == lrp_lifecycle
      then process_lrp env cell_id ttl container
      else if lifecycle == task_lifecycle
      then Tasks.process env cell_id container
      else pure tt

  unfoldable pub process_found : String → ℕ → Option Container → M S (Unit {0})
  process_found cell_id ttl none = pure tt
  process_found cell_id ttl (some container) = process_lifecycle cell_id ttl container

  unfoldable pub execute_container : String → ℕ → String → M S (Unit {0})
  unfolding process_found
  execute_container cell_id ttl guid = fetch_container env guid >>= process_found cell_id ttl

  -- Execute(); the cell id and the evacuation TTL are those of the processors that New builds.
  unfoldable pub execute : String → ℕ → Operation → M S (Unit {0})
  execute cell_id ttl (residual_instance_lrp k i) = execute_residual_instance k i
  execute cell_id ttl (residual_evacuating_lrp k i) = execute_residual_evacuating k i
  execute cell_id ttl (residual_joint_lrp k i) = execute_residual_joint k i
  execute cell_id ttl (residual_task task_guid) = execute_residual_task task_guid
  execute cell_id ttl (container_operation guid) = execute_container cell_id ttl guid
