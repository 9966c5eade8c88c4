-- ===== src/Operation/Residual.antt =====
-- The residual operations: what they remove, and when.
use rep.Base.{ℕ, String, ◌≡◌, List, [], ◌∷◌, ◌++◌, arith}
use rep.Base.Result.{ok, err}
use rep.Models.{Container}
use rep.Services.{
  Call, ExecutorError, Env, World, get_container, remove_actual_lrp, remove_evacuating_actual_lrp,
  fail_task,
}
use rep.Delegate.{fetch_container}
use rep.Processor.Tasks.{reason_missing_container}
use rep.Operation.{
  Operation, residual_instance_lrp, residual_evacuating_lrp, residual_joint_lrp, residual_task,
  container_operation, key, execute, execute_residual_instance, execute_residual_evacuating,
  execute_residual_joint, execute_residual_task, execute_container,
}

-- What an operation removes from the BBS once the executor has no container under its key; the newest
-- call stands first.
abbrev pub removals : Operation → List Call
removals (residual_instance_lrp k i) = remove_actual_lrp k.process_guid k.index i ∷ []
removals (residual_evacuating_lrp k i) = remove_evacuating_actual_lrp k i ∷ []
removals (residual_joint_lrp k i) =
    remove_evacuating_actual_lrp k i ∷ remove_actual_lrp k.process_guid k.index i ∷ []
removals (residual_task guid) = fail_task guid reason_missing_container ∷ []
removals (container_operation guid) = []

abbrev pub IsResidual : Operation → Type 0
IsResidual (container_operation guid) = ⊥
IsResidual _ = Unit

module _ {S : Type 0} (env : Env S) (cell_id : String) (ttl : ℕ) where
  -- An operation that finds no container under its key makes exactly its removals after the lookup:
  -- the LRP is removed as instance, as evacuating instance, or first as the one and then as the other,
  -- a task is failed, and for a container operation nothing is done.
  pub execute_missing :
      (op : Operation) (w : World S) (e : ExecutorError)
      → (env.answer (get_container (key op)) w.outside).0 ≡ err e
      → (execute env cell_id ttl op w).1.calls ≡ removals op ++ get_container (key op) ∷ w.calls
  unfolding execute key execute_residual_instance execute_residual_evacuating execute_residual_joint
      execute_residual_task execute_container fetch_container
  execute_missing (residual_instance_lrp k i) w e h = ground arith
  execute_missing (residual_evacuating_lrp k i) w e h = ground arith
  execute_missing (residual_joint_lrp k i) w e h = ground arith
  execute_missing (residual_task guid) w e h = ground arith
  execute_missing (container_operation guid) w e h = ground arith

  -- A residual operation whose container exists after all changes nothing: the lookup is its one call.
  pub execute_exists :
      (op : Operation) (w : World S) (container : Container)
      → IsResidual op
      → (env.answer (get_container (key op)) w.outside).0 ≡ ok container
      → (execute env cell_id ttl op w).1.calls ≡ get_container (key op) ∷ w.calls
  unfolding execute key execute_residual_instance execute_residual_evacuating execute_residual_joint
      execute_residual_task fetch_container
  execute_exists (residual_instance_lrp k i) w c r h = ground arith
  execute_exists (residual_evacuating_lrp k i) w c r h = ground arith
  execute_exists (residual_joint_lrp k i) w c r h = ground arith
  execute_exists (residual_task guid) w c r h = ground arith
  execute_exists (container_operation guid) w c r h = absurd r
