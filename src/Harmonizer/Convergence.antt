-- ===== src/Harmonizer/Convergence.antt =====
-- A sync of the bulker and the execution of what it pushes: what becomes of the LRPs and tasks that the
-- BBS knows and that have no container. The operation queue runs the operations in any order, each
-- Execute at a time of its own, and between two of them the outside world may change.
use rep.Base.{ℕ, String, List, [], ◌∷◌, some, ◌≡◌, refl, sym, subst, ◌∙◌, Memᴰ, ◌⊎◌, inl, inr}
use mathlib.Core.List.Memᴰ
use rep.Base.Result.{err}
use rep.Services.{Call, ExecutorError, Env, World, get_container, now}
use rep.Services.Only.{Adds, Adds-trans, All-mono}
use rep.Generator.{Order, make_batch}
use rep.Generator.Batch.{lookup-make_batch}
use rep.Generator.Collect.{batch_operations-key}
use rep.Generator.Sources.{Reads, AllFetched, fetched, finish_outcome, batch_operations-fetched}
use rep.Operation.{Operation, key, execute}
use rep.Operation.Residual.{removals, execute_missing}
use rep.Operation.Isolation.{OnContainer, FindsContainer, execute-OnContainer}
use rep.Processor.TaskScope.{FindsTask}
use rep.Harmonizer.{sync}
use rep.Harmonizer.Bulk.{operation_for, sync-pushes}

-- Executions of operations from the world `w`, the latest first.
pub data Executed {S : Type 0} (env : Env S) (cell_id : String) (ttl : ℕ) (w : World S)
    : List Operation → World S → Type 0 where
  nothing_executed : Executed env cell_id ttl w [] w
  then_execute :
      {done : List Operation} {v : World S}
      → Executed env cell_id ttl w done v
      → (op : Operation) → Executed env cell_id ttl w (op ∷ done) (execute env cell_id ttl op v).1
  meanwhile :
      {done : List Operation} {v : World S}
      → Executed env cell_id ttl w done v
      → (s : S) → Executed env cell_id ttl w done (record v { outside = s })

-- The execution of the operation started in the state `s` of the outside world.
abbrev pub Executes :
    {S : Type 0} {env : Env S} {cell_id : String} {ttl : ℕ} {w v : World S} {done : List Operation}
    → Executed env cell_id ttl w done v
    → Operation
    → S
    → Type 0
Executes nothing_executed op s = ⊥
Executes (then_execute {v = v} before o) op s = ((o ≡ op) × (v.outside ≡ s)) ⊎ Executes before op s
Executes (meanwhile before _) op s = Executes before op s

-- Whenever it is asked, the executor has no container with the guid.
abbrev pub IsMissing : {S : Type 0} → Env S → String → Type 0
IsMissing {S} env guid =
    (s : S) → (e : ExecutorError) × ((env.answer (get_container guid) s).0 ≡ err e)

module _ {S : Type 0} (env : Env S) (cell_id : String) (ttl : ℕ) (finds_task : FindsTask env)
    (finds : FindsContainer env) where
  execute-keeps :
      (op : Operation) (w : World S) (c : Call)
      → Memᴰ c w.calls
      → Memᴰ c (execute env cell_id ttl op w).1.calls
  execute-keeps op w c m =
      let (new, on, e) = execute-OnContainer env cell_id ttl finds_task finds op w in
      subst (Memᴰ c) (sym e) (Memᴰ.append_right new m)

  -- An operation that was executed has made its removals if its container is missing.
  Executed-removals :
      {w v : World S} {done : List Operation} (op : Operation) (c : Call)
      → Executed env cell_id ttl w done v
      → Memᴰ op done
      → IsMissing env (key op)
      → Memᴰ c (removals op)
      → Memᴰ c v.calls
  Executed-removals op c nothing_executed m missing r = elim m [ ]
  Executed-removals op c (then_execute {v = v} before o) (Memᴰ.head e) missing r =
      let (error, h) = missing v.outside in
      subst (λ x. Memᴰ c (execute env cell_id ttl x v).1.calls) e
        (subst (Memᴰ c) (sym (execute_missing env cell_id ttl op v error h))
          (Memᴰ.append_left (get_container (key op) ∷ v.calls) r))
  Executed-removals op c (then_execute {v = v} before o) (Memᴰ.tail m) missing r =
      execute-keeps o v c (Executed-removals op c before m missing r)
  Executed-removals op c (meanwhile before s) m missing r =
      Executed-removals op c before m missing r

  Executes-Memᴰ :
      {w v : World S} {done : List Operation} (run : Executed env cell_id ttl w done v)
      (op : Operation) (s : S)
      → Executes run op s
      → Memᴰ op done
  Executes-Memᴰ nothing_executed op s h = absurd h
  Executes-Memᴰ (then_execute before o) op s (inl (same, _)) = Memᴰ.head (sym same)
  Executes-Memᴰ (then_execute before o) op s (inr h) = Memᴰ.tail (Executes-Memᴰ before op s h)
  Executes-Memᴰ (meanwhile before _) op s h = Executes-Memᴰ before op s h

  -- Every call of the executions is one that an operation may make in the state in which it started.
  Executed-OnContainer :
      {w v : World S} {done : List Operation} (run : Executed env cell_id ttl w done v)
      → Adds
          (λ c. (op : Operation) × (s : S) × Executes run op s × OnContainer env s op c)
          w.calls
          v.calls
  Executed-OnContainer nothing_executed = ([], tt, refl)
  Executed-OnContainer (then_execute {v = v} before op) =
      let (older, all_older, e) = Executed-OnContainer before in
      let (newer, all_newer, e') = execute-OnContainer env cell_id ttl finds_task finds op v in
      Adds-trans _ _ _ _
        (older, All-mono _ _ (λ c (o, s, h, on). (o, s, inr h, on)) older all_older, e)
        (newer, All-mono _ _ (λ c on. (op, v.outside, inl (refl, refl), on)) newer all_newer, e')
  Executed-OnContainer (meanwhile before s) = Executed-OnContainer before

  fetched-key :
      (w : World S) (guid : String) (op : Operation) (calls arrivals : Order)
      → Reads env cell_id
      → AllFetched (fetched env cell_id w.outside)
      → operation_for (fetched env cell_id w.outside) guid ≡ some op
      → key op ≡ guid
  fetched-key w guid op calls arrivals reads all called =
      let f = fetched env cell_id w.outside in
      let batch = make_batch f.containers f.instances f.evacuating f.tasks in
      batch_operations-key env cell_id calls arrivals w batch guid op
        (batch_operations-fetched env cell_id calls arrivals w reads
          ∙ ((finish_outcome f arrivals).0 batch).1 (all, refl))
        (lookup-make_batch guid f.containers f.instances f.evacuating f.tasks ∙ called)

  module _ (calls arrivals : Order) (w : World S) (reads : Reads env cell_id) {v : World S}
      {done : List Operation}
      (run : Executed env cell_id ttl (sync env cell_id calls arrivals w).1 done v) where
    -- Where the lookups of the executor and the BBS answer with what was looked up: a sync whose three
    -- services only read and answer without an error, followed by executions of all that it pushes, in any
    -- order and with anything going on between them, makes the removals that are called for at each guid
    -- whose container stays missing: the instance LRP is removed, the evacuating one too or alone, or the
    -- task is failed.
    pub sync-removals :
        (guid : String) (op : Operation)
        → let f = fetched env cell_id (env.answer now w.outside).1 in
          AllFetched f
          → operation_for f guid ≡ some op
          → ((o : Operation) → Memᴰ o (sync env cell_id calls arrivals w).0 → Memᴰ o done)
          → IsMissing env guid
          → (c : Call) → Memᴰ c (removals op)
          → Memᴰ c v.calls
    sync-removals guid op all called covers missing c r =
        let at = (env.answer now w.outside).1 in
        let same =
          fetched-key (record { outside = at; calls = [] }) guid op calls arrivals reads all
            called in
        Executed-removals op c run
          (covers op ((sync-pushes env cell_id calls arrivals w reads op).1 (all, (guid, called))))
          (subst (IsMissing env) (sym same) missing) r

    -- Executions of what a sync pushed, in any order, repeated or left out, and with anything going on
    -- between them, touch nothing but what is called for, where the services of the sync only read and the
    -- lookups of the executor and the BBS answer with what was looked up. Each call belongs to an execution
    -- of the operation that is called for at a guid that one of the services named, all of which answered
    -- without an error. It is the lookup of the key of the operation; one of its own removals, if the
    -- executor answered this execution that it has no such container; or, for a container operation, a call
    -- about the container that the executor answered it with and the LRP instance that the tags of this
    -- container name.
    pub sync-confined :
        ((o : Operation) → Memᴰ o done → Memᴰ o (sync env cell_id calls arrivals w).0)
        → let f = fetched env cell_id (env.answer now w.outside).1 in
          Adds
            (λ c.
              (op : Operation) × (s : S) × Executes run op s
              × (AllFetched f × ((guid : String) × (operation_for f guid ≡ some op)))
              × OnContainer env s op c)
            (sync env cell_id calls arrivals w).1.calls
            v.calls
    sync-confined only =
        let (new, on, e) = Executed-OnContainer run in
        (
          new,
          All-mono _ _
              (λ c (op, s, h, o). (
                op,
                s,
                h,
                (sync-pushes env cell_id calls arrivals w reads op).0
                    (only op (Executes-Memᴰ run op s h)),
                o,
              ))
              new on,
          e,
        )
