-- ===== src/Harmonizer/IterationOrder.antt =====
-- The order in which Go ranges over the maps of BatchOperations and over the batch itself.
use mathlib.Core.List.{Permᴰ}
use rep.Base.{String, refl, ap}
use rep.Base.GoMap.{GoMap}
use rep.Base.MapOrder.{Same, Same-Permᴰ}
use rep.Models.{Container, ActualLrp, TaskDefinition}
use rep.Operation.{Operation}
use rep.Generator.{make_batch}
use rep.Generator.Batch.{lookup-make_batch}
use rep.Generator.Unique.{make_batch-Unique}
use rep.Harmonizer.{values}

values-Permᴰ : {m n : GoMap Operation} → Permᴰ m n → Permᴰ (values m) (values n)
unfolding values
values-Permᴰ Permᴰ.nil = Permᴰ.nil
values-Permᴰ (Permᴰ.cons e d) = Permᴰ.cons (ap (λ (x : String × Operation). x.1) e) (values-Permᴰ d)
values-Permᴰ (Permᴰ.swap e f) =
    Permᴰ.swap (ap (λ (x : String × Operation). x.1) e) (ap (λ (x : String × Operation). x.1) f)
values-Permᴰ (Permᴰ.trans d e) = Permᴰ.trans (values-Permᴰ d) (values-Permᴰ e)

module _ (containers containers' : GoMap Container)
    (instances instances' evacuating evacuating' : GoMap ActualLrp)
    (tasks tasks' : GoMap TaskDefinition) where
  make_batch-Same :
      Same containers containers'
      → Same instances instances'
      → Same evacuating evacuating'
      → Same tasks tasks'
      → Same
          (make_batch containers instances evacuating tasks)
          (make_batch containers' instances' evacuating' tasks')
  make_batch-Same c i e t g =
      rw
        (
          lookup-make_batch g containers instances evacuating tasks,
          lookup-make_batch g containers' instances' evacuating' tasks',
          c g,
          i g,
          e g,
          t g,
        )
        refl

  -- Go's order of iteration does not matter: where the four maps are ranged over in other orders, with the
  -- same lookups, the operations of the batch are the same up to their order.
  pub values-make_batch :
      Same containers containers'
      → Same instances instances'
      → Same evacuating evacuating'
      → Same tasks tasks'
      → Permᴰ
          (values (make_batch containers instances evacuating tasks))
          (values (make_batch containers' instances' evacuating' tasks'))
  values-make_batch c i e t = values-Permᴰ (
      Same-Permᴰ (make_batch containers instances evacuating tasks)
        (make_batch containers' instances' evacuating' tasks')
        (make_batch-Unique containers instances evacuating tasks)
        (make_batch-Unique containers' instances' evacuating' tasks') (make_batch-Same c i e t))
