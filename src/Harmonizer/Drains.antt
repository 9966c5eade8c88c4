-- ===== src/Harmonizer/Drains.antt =====
-- One sync of the bulker while the cell evacuates, and the operations that it pushes: what is left of the
-- containers of the cell.
use rep.Base.{
  ℕ, String, ◌==◌, eq_refl, true, List, [], ◌∷◌, some, ◌≡◌, refl, ap, ◌∙◌, Memᴰ, inl, inr, arith,
}
use rep.Base.Tests.{Bool-cases}
use rep.Base.GoMap.{GoMap, lookup, put, lookup-put}
use rep.Base.Result.{Result, ok}
use rep.Models.{Container, ActualLrpGroup, TaskDefinition}
use rep.Services.{
  Env, World, now, evacuating, list_containers, actual_lrp_groups, tasks_by_cell_id, send_duration,
}
use rep.Services.Latch.{Latches}
use rep.Services.Stays.{IsKept, Stays, stays_rules}
use rep.Generator.{
  Order, Source, from_executor, from_lrp_groups, from_tasks, sources, Fetched, nothing_fetched,
  collect_containers, store_containers, store_groups, store_tasks, fetch, fetch_all,
  batch_operations,
}
use rep.Generator.Sources.{Reads, AllFetched, fetched}
use rep.Operation.{container_operation}
use rep.Harmonizer.{sync}
use rep.Harmonizer.Bulk.{operation_for, sync-pushes}
use rep.Base.Int.{ℤ}
use rep.Evacuator.{Evacuator, Steps, evacuating_cell, returned, complete, checking}
use rep.Evacuator.Drained.{
  empty-Steps, Executor, Drains, execute_each, execute_each-empty, draining-IsKept, HasGuid-IsKept,
}

-- What is collected is never lost.
collect_containers-keeps :
    (guid : String) (c : Container) (m : GoMap Container) (cs : List Container)
    → lookup guid m ≡ some c
    → (d : Container) × (lookup guid (collect_containers m cs) ≡ some d)
unfolding collect_containers
collect_containers-keeps guid c m [] h = (c, h)
collect_containers-keeps guid c m (d ∷ cs) h = elim (Bool-cases (d.guid == guid)) [
  | inl same ↦
      collect_containers-keeps guid d (put d.guid d m) cs
        (ground (arith, lookup-put d.guid guid d m, same))
  | inr apart ↦
      collect_containers-keeps guid c (put d.guid d m) cs
        (ground (arith, lookup-put d.guid guid d m, apart, h))
]

lookup-collect_containers :
    (c : Container) (m : GoMap Container) (cs : List Container)
    → Memᴰ c cs
    → (d : Container) × (lookup c.guid (collect_containers m cs) ≡ some d)
unfolding collect_containers
lookup-collect_containers c m [] h = elim h [ ]
lookup-collect_containers c m (d ∷ cs) (Memᴰ.head e) =
    collect_containers-keeps c.guid d (put d.guid d m) cs (
      ground
        (arith, lookup-put d.guid c.guid d m, ap (λ (x : Container). x.guid) e, eq_refl c.guid))
lookup-collect_containers c m (d ∷ cs) (Memᴰ.tail h) =
    lookup-collect_containers c (put d.guid d m) cs h

stored-containers :
    {E : Type 0} (f : Fetched) (groups : Result E (List ActualLrpGroup))
    (tasks : Result E (List TaskDefinition))
    → (store_tasks (store_groups f groups) tasks).containers ≡ f.containers
unfolding store_groups store_tasks
stored-containers f groups tasks = ground arith

fetched-containers :
    {S : Type 0} (env : Env S) (cell_id : String) (s : S) (cs : List Container)
    → (env.answer list_containers s).0 ≡ ok cs
    → (fetched env cell_id s).containers ≡ collect_containers [] cs
unfolding fetched store_containers
fetched-containers env cell_id s cs h =
    stored-containers _ (env.answer (actual_lrp_groups cell_id) s).0
      (env.answer (tasks_by_cell_id cell_id) s).0
    ∙ (rw h refl)

module _ {S : Type 0} {P : S → Type 0} (env : Env S) (k : IsKept env P) (cell_id : String) where
  fetch-Stays : (source : Source) (f : Fetched) → Stays P (fetch env cell_id source f)
  unfolding fetch
  fetch-Stays from_executor f = search (stays_rules, k)
  fetch-Stays from_lrp_groups f = search (stays_rules, k)
  fetch-Stays from_tasks f = search (stays_rules, k)

  fetch_all-Stays : (order : List Source) (f : Fetched) → Stays P (fetch_all env cell_id order f)
  unfolding fetch_all
  fetch_all-Stays [] f = search stays_rules
  fetch_all-Stays (source ∷ more) f = record {
    at = λ w p.
        (fetch_all-Stays more (fetch env cell_id source f w).0).at _
          ((fetch-Stays source f).at w p);
  }

  -- A sync keeps what its services keep, from the time on at which it starts.
  sync-keeps :
      (calls arrivals : Order) (w : World S)
      → P (env.answer now w.outside).1
      → P (sync env cell_id calls arrivals w).1.outside
  unfolding sync batch_operations
  sync-keeps calls arrivals w p =
      k.kept (send_duration _ _) _ refl
        (k.kept now _ refl ((fetch_all-Stays (sources calls) nothing_fetched).at _ p))

module _ {S : Type 0} (env : Env S) (x : Executor env) (cell_id : String) (ttl : ℕ) where
  listed-operation :
      (s : S) (c : Container)
      → Memᴰ c (x.containers s)
      → operation_for (fetched env cell_id s) c.guid ≡ some (container_operation c.guid)
  listed-operation s c m =
      let (d, there) = lookup-collect_containers c [] (x.containers s) m in
      rw (fetched-containers env cell_id s (x.containers s) (x.lists s)) (rw there refl)

  -- One sync empties a cell that evacuates. Where the executor lists and finds the containers that it holds,
  -- DeleteContainer takes one away, and AllocateContainers alone brings one in; where Evacuating, once
  -- true, stays true; where every container is one of an LRP, with keys that can be read and a known
  -- state, and, where it runs, with network information that can be read and a BBS that does not ask to
  -- keep it; and where the three services of the sync only read and answer without an error: after a sync
  -- and the execution of what it pushes, in its order, the executor holds no container, and an evacuator
  -- whose loop checks then can complete.
  pub sync-Drains :
      (calls arrivals : Order) (w : World S)
      → Latches env
      → ((s : S) (c : Container) → Memᴰ c (x.containers s) → Drains env cell_id ttl c)
      → Reads env cell_id
      → (env.answer evacuating w.outside).0 ≡ true
      → AllFetched (fetched env cell_id (env.answer now w.outside).1)
      → let (ops, synced) = sync env cell_id calls arrivals w in
        let drained = execute_each env cell_id ttl ops synced in
        (x.containers drained.outside ≡ [])
        × ((polling_interval : ℤ) (e : Evacuator S)
            → e.phase ≡ evacuating_cell
            → e.poller ≡ checking
            → e.world ≡ drained
            → (f : Evacuator S) × Steps env polling_interval e f × (f.phase ≡ returned complete))
  sync-Drains calls arrivals w latches drains reads draining all =
      let at = (env.answer now w.outside).1 in
      let (ops, synced) = sync env cell_id calls arrivals w in
      let none_left =
        execute_each-empty env x cell_id ttl latches drains ops (x.containers at) synced
          (sync-keeps env (draining-IsKept env latches) cell_id calls arrivals w
            (latches.keeps now w.outside draining))
          (λ guid.
            sync-keeps env (HasGuid-IsKept env x guid (x.containers at)) cell_id calls arrivals w
              (λ h. h))
          (λ c m.
            (sync-pushes env cell_id calls arrivals w reads (container_operation c.guid)).1
              (all, (c.guid, listed-operation at c m))) in
      (
        none_left,
        λ polling_interval e phase poller same.
            empty-Steps env x polling_interval e phase poller
              (ap (λ (v : World S). x.containers v.outside) same ∙ none_left),
      )
