-- ===== src/AuctionRep/Perform/Failures.antt =====
-- The work that Perform returns as failed.
use rep.Base.{
  String, ◌==◌, true, ◌≡◌, refl, inl, inr, List, [], ◌∷◌, Option, none, some, Memᴰ, arith,
}
use rep.Base.Tests.{Bool-cases}
use rep.Base.Slices.{All, All-append}
use rep.Base.GoMap.{GoMap, lookup, put, lookup-put}
use rep.Base.Result.{Result, ok, err}
use rep.Cell.{Lrp, Task, Work}
use rep.Models.{AllocationRequest}
use rep.Services.{Library, ExecutorError, Env, World, ask, generate_instance_guid, evacuating}
use rep.AuctionRep.{StackPathMap, AuctionCellRep, PathError}
use rep.AuctionRep.Perform.{
  Translated, nothing_translated, untranslated_too, translate_at, translate_lrp, translate_task_at,
  translate_task, tasks_to_allocation_requests, append_found, failed_work, not_allocated,
  lrps_to_allocation_request, allocate, perform_lrps, perform_tasks, perform,
}

-- While the cell evacuates, Perform returns all the work, and asks for no container.
pub perform-evacuating :
    {S : Type 0} (env : Env S) (a : AuctionCellRep) (work : Work) (w : World S)
    → (env.answer evacuating w.outside).0 ≡ true
    → ((perform env a work w).0 ≡ work) × ((perform env a work w).1.calls ≡ evacuating ∷ w.calls)
unfolding perform
perform-evacuating env a work w h = ground arith

All-Memᴰ :
    {W : Type 0} (xs ys : List W) → ((x : W) → Memᴰ x xs → Memᴰ x ys) → All (λ x. Memᴰ x ys) xs
All-Memᴰ [] ys h = tt
All-Memᴰ (x ∷ xs) ys h = (h x (Memᴰ.head refl), All-Memᴰ xs ys (λ y m. h y (Memᴰ.tail m)))

-- What was translated comes from the work.
record FromWork {W : Type 0} (work : List W) (t : Translated W) : Type 0 where
  untranslated : All (λ x. Memᴰ x work) t.untranslated
  by_guid : (g : String) (x : W) → lookup g t.by_guid ≡ some x → Memᴰ x work

module _ {W : Type 0} (work : List W) where
  nothing-FromWork : FromWork work nothing_translated
  unfolding lookup
  nothing-FromWork = record { untranslated = tt; by_guid = λ g x e. cc }

  put-FromWork :
      (k : String) (new : W) (m : GoMap W)
      → Memᴰ new work
      → ((g : String) (x : W) → lookup g m ≡ some x → Memᴰ x work)
      → (g : String) (x : W) → lookup g (put k new m) ≡ some x
      → Memᴰ x work
  put-FromWork k new m mem h g x e = elim (Bool-cases (k == g)) [
    | inl same ↦ rw (← new_is_x same) mem
    | inr other ↦ h g x (ground (arith, lookup-put k g new m))
  ]
    where
      new_is_x : (k == g) ≡ true → new ≡ x
      new_is_x same = ground (arith, lookup-put k g new m)

  append_found-Memᴰ :
      (o : Option W) (rest : List W)
      → ((x : W) → o ≡ some x → Memᴰ x work)
      → All (λ x. Memᴰ x work) rest
      → All (λ x. Memᴰ x work) (append_found o rest)
  unfolding append_found
  append_found-Memᴰ none rest h all = all
  append_found-Memᴰ (some x) rest h all = (h x refl, all)

  failed_work-Memᴰ :
      (m : GoMap W) (failures : List AllocationRequest)
      → ((g : String) (x : W) → lookup g m ≡ some x → Memᴰ x work)
      → All (λ x. Memᴰ x work) (failed_work m failures)
  unfolding failed_work
  failed_work-Memᴰ m [] h = tt
  failed_work-Memᴰ m (f ∷ more) h =
      append_found-Memᴰ (lookup f.guid m) (failed_work m more) (h f.guid)
        (failed_work-Memᴰ m more h)

  allocated-Memᴰ :
      (t : Translated W) (reply : Result ExecutorError (List AllocationRequest))
      → FromWork work t
      → All (λ x. Memᴰ x work) (not_allocated work t reply)
  unfolding not_allocated
  allocated-Memᴰ t (ok failures) h =
      All-append (λ x. Memᴰ x work) t.untranslated _ h.untranslated
        (failed_work-Memᴰ t.by_guid failures h.by_guid)
  allocated-Memᴰ t (err e) h = All-Memᴰ work work (λ x m. m)

  allocate-Memᴰ :
      {S : Type 0} (env : Env S) (t : Translated W) (w : World S)
      → FromWork work t
      → All (λ x. Memᴰ x work) (allocate env work t w).0
  unfolding allocate
  allocate-Memᴰ env t w h = allocated-Memᴰ t _ h

  untranslated_too-FromWork :
      (t : Translated W) (new : W)
      → Memᴰ new work
      → FromWork work t
      → FromWork work (untranslated_too t new)
  untranslated_too-FromWork t new m h = record {
    untranslated = All-append (λ x. Memᴰ x work) t.untranslated (new ∷ []) h.untranslated (m, tt);
    by_guid = h.by_guid;
  }

module _ (lib : Library) (stacks : StackPathMap) where
  translate_at-FromWork :
      (work : List Lrp) (t : Translated Lrp) (lrp : Lrp) (guid : String)
      (path : Result PathError String)
      → Memᴰ lrp work
      → FromWork work t
      → FromWork work (translate_at lib t lrp guid path)
  unfolding translate_at
  translate_at-FromWork work t lrp guid (err e) m h = untranslated_too-FromWork work t lrp m h
  translate_at-FromWork work t lrp guid (ok path) m h = record {
    untranslated = h.untranslated;
    by_guid = put-FromWork work _ lrp t.by_guid m h.by_guid;
  }

  translate_lrp-FromWork :
      (work : List Lrp) (t : Translated Lrp) (lrp : Lrp) (generated : Option String)
      → Memᴰ lrp work
      → FromWork work t
      → FromWork work (translate_lrp lib stacks t lrp generated)
  unfolding translate_lrp
  translate_lrp-FromWork work t lrp none m h = untranslated_too-FromWork work t lrp m h
  translate_lrp-FromWork work t lrp (some guid) m h = translate_at-FromWork work t lrp guid _ m h

  translate_task_at-FromWork :
      (work : List Task) (t : Translated Task) (task : Task) (path : Result PathError String)
      → Memᴰ task work
      → FromWork work t
      → FromWork work (translate_task_at t task path)
  unfolding translate_task_at
  translate_task_at-FromWork work t task (err e) m h = record {
    untranslated = All-append (λ x. Memᴰ x work) t.untranslated (task ∷ []) h.untranslated (m, tt);
    by_guid = put-FromWork work _ task t.by_guid m h.by_guid;
  }
  translate_task_at-FromWork work t task (ok path) m h = record {
    untranslated = h.untranslated;
    by_guid = put-FromWork work _ task t.by_guid m h.by_guid;
  }

  tasks-FromWork :
      (work more : List Task) (t : Translated Task)
      → All (λ x. Memᴰ x work) more
      → FromWork work t
      → FromWork work (tasks_to_allocation_requests lib stacks t more)
  unfolding tasks_to_allocation_requests translate_task
  tasks-FromWork work [] t ms h = h
  tasks-FromWork work (task ∷ more) t ms h =
      tasks-FromWork work more (translate_task lib stacks t task) ms.1
        (translate_task_at-FromWork work t task _ ms.0 h)

module _ {S : Type 0} (env : Env S) (stacks : StackPathMap) where
  lrps-FromWork :
      (work more : List Lrp) (t : Translated Lrp) (w : World S)
      → All (λ x. Memᴰ x work) more
      → FromWork work t
      → FromWork work (lrps_to_allocation_request env stacks t more w).0
  unfolding lrps_to_allocation_request
  lrps-FromWork work [] t w ms h = h
  lrps-FromWork work (lrp ∷ more) t w ms h =
      lrps-FromWork work more
        (translate_lrp env.lib stacks t lrp (env.answer generate_instance_guid w.outside).0)
        (ask env generate_instance_guid w).1 ms.1
        (translate_lrp-FromWork env.lib stacks work t lrp _ ms.0 h)

  perform_lrps-Memᴰ :
      (lrps : List Lrp) (w : World S) → All (λ x. Memᴰ x lrps) (perform_lrps env stacks lrps w).0
  unfolding perform_lrps
  perform_lrps-Memᴰ [] w = tt
  perform_lrps-Memᴰ (lrp ∷ more) w =
      let translated = lrps_to_allocation_request env stacks nothing_translated (lrp ∷ more) w in
      allocate-Memᴰ (lrp ∷ more) env translated.0 translated.1 (
        lrps-FromWork (lrp ∷ more) (lrp ∷ more) nothing_translated w
          (All-Memᴰ (lrp ∷ more) (lrp ∷ more) (λ x m. m)) (nothing-FromWork (lrp ∷ more)))

  perform_tasks-Memᴰ :
      (tasks : List Task) (w : World S)
      → All (λ x. Memᴰ x tasks) (perform_tasks env stacks tasks w).0
  unfolding perform_tasks
  perform_tasks-Memᴰ [] w = tt
  perform_tasks-Memᴰ (task ∷ more) w =
      allocate-Memᴰ (task ∷ more) env
        (tasks_to_allocation_requests env.lib stacks nothing_translated (task ∷ more)) w
        (tasks-FromWork env.lib stacks (task ∷ more) (task ∷ more) nothing_translated
          (All-Memᴰ (task ∷ more) (task ∷ more) (λ x m. m)) (nothing-FromWork (task ∷ more)))

-- Perform returns as failed only work that it was given: every LRP and every task of its result is one
-- of the work, whatever the executor answers.
pub perform-Memᴰ :
    {S : Type 0} (env : Env S) (a : AuctionCellRep) (work : Work) (w : World S)
    → All (λ x. Memᴰ x work.lrps) (perform env a work w).0.lrps
      × All (λ x. Memᴰ x work.tasks) (perform env a work w).0.tasks
unfolding perform
perform-Memᴰ env a work w = elim (Bool-cases (env.answer evacuating w.outside).0) [
  | inl yes_evacuating ↦
      rw yes_evacuating
        (All-Memᴰ work.lrps work.lrps (λ x m. m), All-Memᴰ work.tasks work.tasks (λ x m. m))
  | inr not_evacuating ↦
      let before = (ask env evacuating w).1 in
      let between = (perform_lrps env a.stack_path_map work.lrps before).1 in
      rw not_evacuating (
        perform_lrps-Memᴰ env a.stack_path_map work.lrps before,
        perform_tasks-Memᴰ env a.stack_path_map work.tasks between,
      )
]
