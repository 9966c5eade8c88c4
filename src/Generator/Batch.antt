-- ===== src/Generator/Batch.antt =====
-- What a batch holds for each guid (the four loops of BatchOperations).
use rep.Base.{String, ◌==◌, eq_iff, [], ◌∷◌, Option, none, some, ◌≡◌, refl, arith}
use rep.Base.Tests.{if◌then◌else◌}
use rep.Base.GoMap.{GoMap, lookup, put, has, lookup-put}
use rep.Models.{Container, ActualLrp, TaskDefinition}
use rep.Operation.{
  Operation, residual_instance_lrp, residual_evacuating_lrp, residual_joint_lrp, residual_task,
  container_operation,
}
use rep.Generator.{
  instance_operation, add_containers, add_instances, add_evacuating, add_tasks, make_batch,
}

-- The operation for a guid, by what the cell and the BBS know of it: a container goes before all
-- else, then the LRPs, then the task.
abbrev pub expected :
    String
    → Option Container
    → Option ActualLrp
    → Option ActualLrp
    → Option TaskDefinition
    → Option Operation
expected guid (some _) inst evac task = some (container_operation guid)
expected guid none (some lrp) (some _) task = some (residual_joint_lrp lrp.key lrp.instance_key)
expected guid none (some lrp) none task = some (residual_instance_lrp lrp.key lrp.instance_key)
expected guid none none (some lrp) task = some (residual_evacuating_lrp lrp.key lrp.instance_key)
expected guid none none none (some _) = some (residual_task guid)
expected guid none none none none = none

-- The first of two, if it is there.
abbrev or_else {ℓ} : {A : Type ℓ} → Option A → Option A → Option A
or_else (some a) b = some a
or_else none b = b

lookup-nil : (g : String) → lookup {V = Operation} g [] ≡ none
unfolding lookup
lookup-nil g = refl

abbrev from_container : String → Option Container → Option Operation
from_container g none = none
from_container g (some _) = some (container_operation g)

lookup-add_containers :
    (g : String) (batch : GoMap Operation) (m : GoMap Container)
    → lookup g (add_containers batch m) ≡ or_else (from_container g (lookup g m)) (lookup g batch)
unfolding add_containers lookup
lookup-add_containers g batch [] = refl
lookup-add_containers g batch ((k, c) ∷ m) = ground (
  arith,
  eq_iff k g,
  lookup-put k g (container_operation k) batch,
  lookup-add_containers g (put k (container_operation k) batch) m,
)

abbrev from_instance : Option ActualLrp → Option ActualLrp → Option Operation
from_instance evac none = none
from_instance (some _) (some lrp) = some (residual_joint_lrp lrp.key lrp.instance_key)
from_instance none (some lrp) = some (residual_instance_lrp lrp.key lrp.instance_key)

abbrev from_evacuating : Option ActualLrp → Option Operation
from_evacuating none = none
from_evacuating (some lrp) = some (residual_evacuating_lrp lrp.key lrp.instance_key)

abbrev from_task : String → Option TaskDefinition → Option Operation
from_task g none = none
from_task g (some _) = some (residual_task g)

-- One round of a loop that skips a guid which the batch already has.
abbrev add_missing : String → Operation → GoMap Operation → GoMap Operation
add_missing k op batch = if has k batch then batch else put k op batch

lookup-add_missing :
    (g k : String) (op : Operation) (batch : GoMap Operation)
    → lookup g (add_missing k op batch)
      ≡ or_else (lookup g batch) (if k == g then some op else none)
unfolding has
lookup-add_missing g k op batch = ground (arith, eq_iff k g, lookup-put k g op batch)

instance_operation-from_instance :
    (evac : GoMap ActualLrp) (k : String) (lrp : ActualLrp)
    → some (instance_operation evac k lrp) ≡ from_instance (lookup k evac) (some lrp)
unfolding instance_operation has
instance_operation-from_instance evac k lrp = ground arith

lookup-add_instances :
    (g : String) (evac : GoMap ActualLrp) (batch : GoMap Operation) (m : GoMap ActualLrp)
    → lookup g (add_instances evac batch m)
      ≡ or_else (lookup g batch) (from_instance (lookup g evac) (lookup g m))
unfolding add_instances lookup
lookup-add_instances g evac batch [] = ground arith
lookup-add_instances g evac batch ((k, lrp) ∷ m) = ground (
  arith,
  eq_iff k g,
  instance_operation-from_instance evac k lrp,
  lookup-add_missing g k (instance_operation evac k lrp) batch,
  lookup-add_instances g evac (add_missing k (instance_operation evac k lrp) batch) m,
)

lookup-add_evacuating :
    (g : String) (batch : GoMap Operation) (m : GoMap ActualLrp)
    → lookup g (add_evacuating batch m) ≡ or_else (lookup g batch) (from_evacuating (lookup g m))
unfolding add_evacuating lookup
lookup-add_evacuating g batch [] = ground arith
lookup-add_evacuating g batch ((k, lrp) ∷ m) = ground (
  arith,
  eq_iff k g,
  lookup-add_missing g k (residual_evacuating_lrp lrp.key lrp.instance_key) batch,
  lookup-add_evacuating g (add_missing k (residual_evacuating_lrp lrp.key lrp.instance_key) batch)
      m,
)

lookup-add_tasks :
    (g : String) (batch : GoMap Operation) (m : GoMap TaskDefinition)
    → lookup g (add_tasks batch m) ≡ or_else (lookup g batch) (from_task g (lookup g m))
unfolding add_tasks lookup
lookup-add_tasks g batch [] = ground arith
lookup-add_tasks g batch ((k, t) ∷ m) = ground (
  arith,
  eq_iff k g,
  lookup-add_missing g k (residual_task k) batch,
  lookup-add_tasks g (add_missing k (residual_task k) batch) m,
)

-- For every guid, the batch holds the operation that the four maps call for, and no other: a
-- container operation if the guid has a container; else, if an instance LRP has the guid, a joint or
-- an instance one, as an evacuating LRP has the guid too or not; else an evacuating one; else a task
-- one; and none if nothing has the guid.
pub lookup-make_batch :
    (g : String) (containers : GoMap Container) (instances evacuating : GoMap ActualLrp)
    (tasks : GoMap TaskDefinition)
    → lookup g (make_batch containers instances evacuating tasks)
      ≡ expected g (lookup g containers) (lookup g instances) (lookup g evacuating) (lookup g tasks)
unfolding make_batch
lookup-make_batch g containers instances evacuating tasks =
    let a = add_containers [] containers in
    let b = add_instances evacuating a instances in
    let c = add_evacuating b evacuating in
    ground (
      arith,
      lookup-add_containers g [] containers,
      lookup-add_instances g evacuating a instances,
      lookup-add_evacuating g b evacuating,
      lookup-add_tasks g c tasks,
      lookup-nil g,
    )
