-- ===== src/Generator/Sources.antt =====
-- BatchOperations under every interleaving of its three goroutines: the order in which they call
-- their services and the order in which their errors arrive.
use rep.Base.{String, List, [], ◌∷◌, none, some, ◌≡◌, refl, sym, ◌∙◌, inl, inr, ◌↔◌, arith}
use rep.Base.Tests.{Option-cases}
use rep.Base.GoMap.{GoMap}
use rep.Base.Result.{ok, err}
use rep.Services.{Env, World, list_containers, actual_lrp_groups, tasks_by_cell_id}
use rep.Operation.{Operation}
use rep.Generator.{
  BatchError, make_batch, Source, Order, executor_lrps_tasks, executor_tasks_lrps,
  lrps_executor_tasks, lrps_tasks_executor, tasks_executor_lrps, tasks_lrps_executor, sources,
  Fetched, nothing_fetched, store_containers, store_groups, store_tasks, sent_error, first_error,
  finish, fetch, fetch_all, batch_operations,
}

-- No goroutine sent an error.
pub record AllFetched (f : Fetched) : Type 0 where
  pub containers : f.executor_error ≡ none
  pub lrps : f.lrps_error ≡ none
  pub tasks : f.tasks_error ≡ none

-- Some goroutine sent the error `e`.
abbrev pub Sent : Fetched → BatchError → Type 0
Sent f e = (source : Source) × (sent_error f source ≡ some e)

all_fetched :
    (f : Fetched) (arrivals : Order) → first_error f none (sources arrivals) ≡ none → AllFetched f
unfolding first_error sources
all_fetched f executor_lrps_tasks h = ground arith
all_fetched f executor_tasks_lrps h = ground arith
all_fetched f lrps_executor_tasks h = ground arith
all_fetched f lrps_tasks_executor h = ground arith
all_fetched f tasks_executor_lrps h = ground arith
all_fetched f tasks_lrps_executor h = ground arith

none_sent :
    (f : Fetched) (arrivals : Order) → AllFetched f → first_error f none (sources arrivals) ≡ none
unfolding first_error sources
none_sent f executor_lrps_tasks h = ground arith
none_sent f executor_tasks_lrps h = ground arith
none_sent f lrps_executor_tasks h = ground arith
none_sent f lrps_tasks_executor h = ground arith
none_sent f tasks_executor_lrps h = ground arith
none_sent f tasks_lrps_executor h = ground arith

-- The first error is kept.
first_error-some :
    (f : Fetched) (e : BatchError) (order : List Source) → first_error f (some e) order ≡ some e
unfolding first_error
first_error-some f e [] = refl
first_error-some f e (source ∷ more) = first_error-some f e more

-- The error that the loop keeps is one that was sent.
first_error-Sent :
    (f : Fetched) (order : List Source) (e : BatchError)
    → first_error f none order ≡ some e
    → Sent f e
unfolding first_error
first_error-Sent f [] e h = cc
first_error-Sent f (source ∷ more) e h = elim (Option-cases (sent_error f source)) [
  | inl n ↦ first_error-Sent f more e (rw n at h)
  | inr (x, p) ↦ (source, p ∙ sym (first_error-some f x more) ∙ (rw p at h))
]

finish-ok :
    (f : Fetched) (arrivals : Order) (batch : GoMap Operation)
    → finish f arrivals ≡ ok batch
    → AllFetched f × (make_batch f.containers f.instances f.evacuating f.tasks ≡ batch)
unfolding finish
finish-ok f arrivals batch h = (all_fetched f arrivals (ground arith), ground arith)

ok-finish :
    (f : Fetched) (arrivals : Order) (batch : GoMap Operation)
    → AllFetched f × (make_batch f.containers f.instances f.evacuating f.tasks ≡ batch)
    → finish f arrivals ≡ ok batch
unfolding finish
ok-finish f arrivals batch h = ground (arith, none_sent f arrivals h.0)

finish-err :
    (f : Fetched) (arrivals : Order) (e : BatchError) → finish f arrivals ≡ err e → Sent f e
unfolding finish
finish-err f arrivals e h = first_error-Sent f (sources arrivals) e (ground arith)

-- In whatever order the errors arrive, a batch is returned exactly if there is none, and it is made
-- of all four maps; an error that is returned was sent by one of the three.
pub finish_outcome :
    (f : Fetched) (arrivals : Order)
    → ((batch : GoMap Operation)
        → (finish f arrivals ≡ ok batch)
          ↔ (AllFetched f × (make_batch f.containers f.instances f.evacuating f.tasks ≡ batch)))
      × ((e : BatchError) → finish f arrivals ≡ err e → Sent f e)
finish_outcome f arrivals =
    (λ batch. (finish-ok f arrivals batch, ok-finish f arrivals batch), finish-err f arrivals)

-- The three services answer without changing what they will answer.
abbrev pub Reads : {S : Type 0} → Env S → String → Type 0
Reads {S} env cell_id =
    (s : S)
    → ((env.answer list_containers s).1 ≡ s)
      × ((env.answer (actual_lrp_groups cell_id) s).1 ≡ s)
      × ((env.answer (tasks_by_cell_id cell_id) s).1 ≡ s)

module _ {S : Type 0} (env : Env S) (cell_id : String) where
  -- What the goroutines fetch in a state of the outside world.
  unfoldable pub fetched : S → Fetched
  fetched s =
      store_tasks
        (store_groups (store_containers nothing_fetched (env.answer list_containers s).0)
          (env.answer (actual_lrp_groups cell_id) s).0)
        (env.answer (tasks_by_cell_id cell_id) s).0

  fetch_all-fetched :
      (order : Order) (w : World S)
      → Reads env cell_id
      → (fetch_all env cell_id (sources order) nothing_fetched w).0 ≡ fetched w.outside
  unfolding fetch_all fetch sources fetched store_containers store_groups store_tasks
  fetch_all-fetched executor_lrps_tasks w reads = ground (arith, reads w.outside)
  fetch_all-fetched executor_tasks_lrps w reads = ground (arith, reads w.outside)
  fetch_all-fetched lrps_executor_tasks w reads = ground (arith, reads w.outside)
  fetch_all-fetched lrps_tasks_executor w reads = ground (arith, reads w.outside)
  fetch_all-fetched tasks_executor_lrps w reads = ground (arith, reads w.outside)
  fetch_all-fetched tasks_lrps_executor w reads = ground (arith, reads w.outside)

  pub batch_operations-fetched :
      (calls arrivals : Order) (w : World S)
      → Reads env cell_id
      → (batch_operations env cell_id calls arrivals w).0 ≡ finish (fetched w.outside) arrivals
  unfolding batch_operations
  batch_operations-fetched calls arrivals w reads = rw (fetch_all-fetched calls w reads) refl

  -- Where the services only read, the interleaving of the goroutines does not decide whether there
  -- is a batch, nor which: two runs from one world that differ in the order of the calls and of the
  -- arrivals return the same batch, if one of them returns a batch.
  pub batch_operations_confluent :
      (calls arrivals calls' arrivals' : Order) (w : World S) (batch : GoMap Operation)
      → Reads env cell_id
      → (batch_operations env cell_id calls arrivals w).0 ≡ ok batch
      → (batch_operations env cell_id calls' arrivals' w).0 ≡ ok batch
  batch_operations_confluent calls arrivals calls' arrivals' w batch reads h =
      batch_operations-fetched calls' arrivals' w reads
      ∙ ok-finish (fetched w.outside) arrivals' batch (
          finish-ok (fetched w.outside) arrivals batch
            (sym (batch_operations-fetched calls arrivals w reads) ∙ h))
