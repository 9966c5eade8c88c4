-- ===== src/Generator/Collect.antt =====
-- The keys of the maps of LRPs that BatchOperations collects, and those of its operations.
use rep.Base.{String, eq_iff, List, [], ◌∷◌, Option, none, some, ◌≡◌, refl, arith}
use rep.Base.GoMap.{GoMap, lookup, lookup-put}
use rep.Base.Result.{Result, ok, err}
use rep.Models.{Container, ActualLrp, ActualLrpGroup, TaskDefinition}
use rep.Services.{Env, World}
use rep.Conversion.Tags.{lrp_container_guid}
use rep.Operation.{Operation, key}
use rep.Generator.{
  lrp_guid, put_lrp, collect_instances, collect_evacuating, Source, from_executor, from_lrp_groups,
  from_tasks, Order, sources, Fetched, nothing_fetched, store_containers, store_groups, store_tasks,
  finish, fetch, fetch_all, batch_operations,
}
use rep.Generator.Batch.{expected, lookup-make_batch}

-- Every LRP of the map stands under its container guid.
abbrev pub IsKeyed : GoMap ActualLrp → Type 0
IsKeyed m = (g : String) (lrp : ActualLrp) → lookup g m ≡ some lrp → lrp_guid lrp ≡ g

put_lrp-IsKeyed : (o : Option ActualLrp) (m : GoMap ActualLrp) → IsKeyed m → IsKeyed (put_lrp o m)
unfolding put_lrp
put_lrp-IsKeyed none m h g lrp e = h g lrp e
put_lrp-IsKeyed (some new) m h g lrp e =
    ground (arith, eq_iff (lrp_guid new) g, lookup-put (lrp_guid new) g new m, h g lrp)

collect_instances-IsKeyed :
    (m : GoMap ActualLrp) (groups : List ActualLrpGroup)
    → IsKeyed m
    → IsKeyed (collect_instances m groups)
unfolding collect_instances
collect_instances-IsKeyed m [] h = h
collect_instances-IsKeyed m (group ∷ more) h =
    collect_instances-IsKeyed (put_lrp group.instance_lrp m) more
      (put_lrp-IsKeyed group.instance_lrp m h)

collect_evacuating-IsKeyed :
    (m : GoMap ActualLrp) (groups : List ActualLrpGroup)
    → IsKeyed m
    → IsKeyed (collect_evacuating m groups)
unfolding collect_evacuating
collect_evacuating-IsKeyed m [] h = h
collect_evacuating-IsKeyed m (group ∷ more) h =
    collect_evacuating-IsKeyed (put_lrp group.evacuating_lrp m) more
      (put_lrp-IsKeyed group.evacuating_lrp m h)

-- An operation that the four maps call for has the guid as its key.
expected-key :
    (g : String) (c : Option Container) (i e : Option ActualLrp) (t : Option TaskDefinition)
    (op : Operation)
    → ((lrp : ActualLrp) → i ≡ some lrp → lrp_guid lrp ≡ g)
    → ((lrp : ActualLrp) → e ≡ some lrp → lrp_guid lrp ≡ g)
    → expected g c i e t ≡ some op
    → key op ≡ g
unfolding key lrp_guid lrp_container_guid
expected-key g (some c) i e t op hi he h = ground arith
expected-key g none (some l) (some m) t op hi he h = ground (arith, hi l refl)
expected-key g none (some l) none t op hi he h = ground (arith, hi l refl)
expected-key g none none (some l) t op hi he h = ground (arith, he l refl)
expected-key g none none none (some t) op hi he h = ground arith
expected-key g none none none none op hi he h = cc

-- Both maps of LRPs are.
record AreKeyed (f : Fetched) : Type 0 where
  instances : IsKeyed f.instances
  evacuating : IsKeyed f.evacuating

store_containers-AreKeyed :
    {E : Type 0} (f : Fetched) (reply : Result E (List Container))
    → AreKeyed f
    → AreKeyed (store_containers f reply)
unfolding store_containers
store_containers-AreKeyed f (ok found) h = record {
  instances = h.instances;
  evacuating = h.evacuating;
}
store_containers-AreKeyed f (err e) h = record {
  instances = h.instances;
  evacuating = h.evacuating;
}

store_tasks-AreKeyed :
    {E : Type 0} (f : Fetched) (reply : Result E (List TaskDefinition))
    → AreKeyed f
    → AreKeyed (store_tasks f reply)
unfolding store_tasks
store_tasks-AreKeyed f (ok found) h = record { instances = h.instances; evacuating = h.evacuating }
store_tasks-AreKeyed f (err e) h = record { instances = h.instances; evacuating = h.evacuating }

module _ {S : Type 0} (env : Env S) (cell_id : String) where
  store_groups-AreKeyed :
      {E : Type 0} (f : Fetched) (reply : Result E (List ActualLrpGroup))
      → AreKeyed f
      → AreKeyed (store_groups f reply)
  unfolding store_groups
  store_groups-AreKeyed f (ok groups) h = record {
    instances = collect_instances-IsKeyed f.instances groups h.instances;
    evacuating = collect_evacuating-IsKeyed f.evacuating groups h.evacuating;
  }
  store_groups-AreKeyed f (err e) h = record { instances = h.instances; evacuating = h.evacuating }

  fetch-AreKeyed :
      (source : Source) (f : Fetched) (w : World S)
      → AreKeyed f
      → AreKeyed (fetch env cell_id source f w).0
  unfolding fetch
  fetch-AreKeyed from_executor f w h = store_containers-AreKeyed f _ h
  fetch-AreKeyed from_lrp_groups f w h = store_groups-AreKeyed f _ h
  fetch-AreKeyed from_tasks f w h = store_tasks-AreKeyed f _ h

  fetch_all-AreKeyed :
      (order : List Source) (f : Fetched) (w : World S)
      → AreKeyed f
      → AreKeyed (fetch_all env cell_id order f w).0
  unfolding fetch_all
  fetch_all-AreKeyed [] f w h = h
  fetch_all-AreKeyed (source ∷ more) f w h =
      fetch_all-AreKeyed more (fetch env cell_id source f w).0 (fetch env cell_id source f w).1
        (fetch-AreKeyed source f w h)

finish-key :
    (f : Fetched) (arrivals : Order) (batch : GoMap Operation) (g : String) (op : Operation)
    → AreKeyed f
    → finish f arrivals ≡ ok batch
    → lookup g batch ≡ some op
    → key op ≡ g
unfolding finish
finish-key f arrivals batch g op h e l =
    expected-key g (lookup g f.containers) (lookup g f.instances) (lookup g f.evacuating)
      (lookup g f.tasks) op (h.instances g) (h.evacuating g)
      (ground (arith, lookup-make_batch g f.containers f.instances f.evacuating f.tasks))

nothing_fetched-AreKeyed : AreKeyed nothing_fetched
unfolding lookup
nothing_fetched-AreKeyed = record { instances = λ g lrp e. cc; evacuating = λ g lrp e. cc }

-- Whatever the services answer and however the three goroutines interleave, each operation of a batch
-- stands under its own key.
pub batch_operations-key :
    {S : Type 0} (env : Env S) (cell_id : String) (calls arrivals : Order) (w : World S)
    (batch : GoMap Operation) (g : String) (op : Operation)
    → (batch_operations env cell_id calls arrivals w).0 ≡ ok batch
    → lookup g batch ≡ some op
    → key op ≡ g
unfolding batch_operations
batch_operations-key env cell_id calls arrivals w batch g op =
    finish-key (fetch_all env cell_id (sources calls) nothing_fetched w).0 arrivals batch g op
      (fetch_all-AreKeyed env cell_id (sources calls) nothing_fetched w nothing_fetched-AreKeyed)
