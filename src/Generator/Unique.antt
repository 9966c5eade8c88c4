-- ===== src/Generator/Unique.antt =====
-- Each guid stands once in a batch, so that ranging over the batch gives exactly what its lookups give.
use rep.Base.{[], ◌∷◌}
use rep.Base.Tests.{if◌then◌else◌}
use rep.Base.GoMap.{GoMap, put, has}
use rep.Base.Maps.{Unique, Unique-put, Unique-put_missing}
use rep.Models.{Container, ActualLrp, TaskDefinition}
use rep.Operation.{Operation, residual_evacuating_lrp, residual_task, container_operation}
use rep.Generator.{
  instance_operation, add_containers, add_instances, add_evacuating, add_tasks, make_batch,
}

Unique-add_containers :
    (batch : GoMap Operation) (m : GoMap Container) → Unique batch → Unique (add_containers batch m)
unfolding add_containers
Unique-add_containers batch [] u = u
Unique-add_containers batch ((k, c) ∷ m) u =
    Unique-add_containers (put k (container_operation k) batch) m
      (Unique-put k (container_operation k) batch u)

Unique-add_instances :
    (evac : GoMap ActualLrp) (batch : GoMap Operation) (m : GoMap ActualLrp)
    → Unique batch
    → Unique (add_instances evac batch m)
unfolding add_instances
Unique-add_instances evac batch [] u = u
Unique-add_instances evac batch ((k, lrp) ∷ m) u =
    let op = instance_operation evac k lrp in
    Unique-add_instances evac (if has k batch then batch else put k op batch) m
      (Unique-put_missing k op batch u)

Unique-add_evacuating :
    (batch : GoMap Operation) (m : GoMap ActualLrp) → Unique batch → Unique (add_evacuating batch m)
unfolding add_evacuating
Unique-add_evacuating batch [] u = u
Unique-add_evacuating batch ((k, lrp) ∷ m) u =
    let op = residual_evacuating_lrp lrp.key lrp.instance_key in
    Unique-add_evacuating (if has k batch then batch else put k op batch) m
      (Unique-put_missing k op batch u)

Unique-add_tasks :
    (batch : GoMap Operation) (m : GoMap TaskDefinition) → Unique batch → Unique (add_tasks batch m)
unfolding add_tasks
Unique-add_tasks batch [] u = u
Unique-add_tasks batch ((k, t) ∷ m) u =
    let op = residual_task k in
    Unique-add_tasks (if has k batch then batch else put k op batch) m
      (Unique-put_missing k op batch u)

pub make_batch-Unique :
    (containers : GoMap Container) (instances evacuating : GoMap ActualLrp)
    (tasks : GoMap TaskDefinition)
    → Unique (make_batch containers instances evacuating tasks)
unfolding make_batch
make_batch-Unique containers instances evacuating tasks =
    let a = add_containers [] containers in
    let b = add_instances evacuating a instances in
    let c = add_evacuating b evacuating in
    Unique-add_tasks c tasks (
      Unique-add_evacuating b evacuating
        (Unique-add_instances evacuating a instances (Unique-add_containers [] containers tt)))
