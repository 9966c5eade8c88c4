-- ===== src/Operation/Isolation.antt =====
-- Which containers, LRP instances and tasks an operation touches. The rep runs the operations of one
-- key one after the other, and those of different keys side by side.
use rep.Base.{ℕ, String, ◌≡◌, refl, sym, subst, ap, ◌∙◌, ◌⊎◌, inl, inr, List, [], ◌∷◌, ◌++◌, Memᴰ}
use mathlib.Core.List.{append_assoc}
use rep.Base.Slices.{All, All-append}
use rep.Base.Result.{Result, ok, err}
use rep.Models.{Container}
use rep.Conversion.Tags.{tag, instance_guid_tag}
use rep.Services.{Call, ExecutorError, Env, World, ask, get_container}
use rep.Services.Only.{Only, Adds, Adds-trans, All-mono, only_rules}
use rep.Delegate.{fetch_container}
use rep.Processor.Concerns.{Concerns}
use rep.Processor.Scope.{process_lrp-Concerns}
use rep.Processor.TaskScope.{FindsTask, process_task-Concerns}
use rep.Processor.{process_lrp}
use rep.Processor.Tasks
use rep.Operation.{
  Operation, residual_instance_lrp, residual_evacuating_lrp, residual_joint_lrp, residual_task,
  container_operation, key, execute, process_lifecycle, process_found, execute_container,
}
use rep.Operation.Residual.{removals, IsResidual, execute_missing, execute_exists}

-- The operation looks after a container that exists; the residual ones leave it alone.
abbrev pub LooksAfter : Operation → Type 0
LooksAfter (container_operation guid) = Unit
LooksAfter _ = ⊥

-- The calls that an operation may make where the outside world is in the state `s` when it starts: the
-- lookup of its key; its removals, if the executor answers that it has no such container; and if the
-- executor answers with a container and the operation looks after it, the calls that concern this
-- container and the LRP instance that its tags name.
abbrev pub OnContainer : {S : Type 0} → Env S → S → Operation → Call → Type 0
OnContainer env s op c =
    (c ≡ get_container (key op))
    ⊎ (((e : ExecutorError) × ((env.answer (get_container (key op)) s).0 ≡ err e)
          × Memᴰ c (removals op))
        ⊎ ((container : Container) × ((env.answer (get_container (key op)) s).0 ≡ ok container)
            × LooksAfter op
            × Concerns (key op) (tag container.tags instance_guid_tag) c))

-- GetContainer answers with the container that was asked for.
abbrev pub FindsContainer : {S : Type 0} → Env S → Type 0
FindsContainer {S} env =
    (guid : String) (s : S) (container : Container)
    → (env.answer (get_container guid) s).0 ≡ ok container
    → container.guid ≡ guid

All-Memᴰ : (P : Call → Type 0) (cs : List Call) → ((c : Call) → Memᴰ c cs → P c) → All P cs
All-Memᴰ P [] h = tt
All-Memᴰ P (c ∷ cs) h = (h c (Memᴰ.head refl), All-Memᴰ P cs (λ d m. h d (Memᴰ.tail m)))

module _ {S : Type 0} (env : Env S) (cell_id : String) (ttl : ℕ) where
  missing-OnContainer :
      (op : Operation) (w : World S) (e : ExecutorError)
      → (env.answer (get_container (key op)) w.outside).0 ≡ err e
      → Adds (OnContainer env w.outside op) w.calls (execute env cell_id ttl op w).1.calls
  missing-OnContainer op w e h = (
    removals op ++ get_container (key op) ∷ [],
    All-append _ (removals op) (get_container (key op) ∷ [])
        (All-Memᴰ _ (removals op) (λ c m. inr (inl (e, h, m)))) (inl refl, tt),
    execute_missing env cell_id ttl op w e h
        ∙ sym (append_assoc (removals op) (get_container (key op) ∷ []) w.calls),
  )

  residual-OnContainer :
      (op : Operation) (w : World S) (container : Container)
      → IsResidual op
      → (env.answer (get_container (key op)) w.outside).0 ≡ ok container
      → Adds (OnContainer env w.outside op) w.calls (execute env cell_id ttl op w).1.calls
  residual-OnContainer op w container r h = (
    get_container (key op) ∷ [],
    (inl refl, tt),
    execute_exists env cell_id ttl op w container r h,
  )

  execute_container_found :
      (guid : String) (w : World S) (container : Container)
      → (env.answer (get_container guid) w.outside).0 ≡ ok container
      → execute_container env cell_id ttl guid w
        ≡ process_lifecycle env cell_id ttl container (ask env (get_container guid) w).1
  unfolding execute_container fetch_container process_found
  execute_container_found guid w container h = rw h refl

  module _ (finds_task : FindsTask env) (finds : FindsContainer env) where
    lifecycle-Concerns :
        (guid : String) (container : Container)
        → container.guid ≡ guid
        → Only
            (Concerns guid (tag container.tags instance_guid_tag))
            (process_lifecycle env cell_id ttl container)
    unfolding process_lifecycle
    lifecycle-Concerns guid container e = search (only_rules, lrp, task)
      where
        inst : String
        inst = tag container.tags instance_guid_tag

        lrp : Only (Concerns guid inst) (process_lrp env cell_id ttl container)
        lrp =
            subst (λ g. Only (Concerns g inst) (process_lrp env cell_id ttl container)) e
              (process_lrp-Concerns env cell_id ttl container)

        task : Only (Concerns guid inst) (Tasks.process env cell_id container)
        task =
            subst (λ g. Only (Concerns g inst) (Tasks.process env cell_id container)) e
              (process_task-Concerns env finds_task container inst cell_id)

    container-OnContainer :
        (guid : String) (w : World S) (container : Container)
        → (env.answer (get_container guid) w.outside).0 ≡ ok container
        → Adds
            (OnContainer env w.outside (container_operation guid))
            w.calls
            (execute_container env cell_id ttl guid w).1.calls
    unfolding key
    container-OnContainer guid w container h =
        let op = container_operation guid in
        let looked = (ask env (get_container guid) w).1 in
        let (new, all, e) =
          (lifecycle-Concerns guid container (finds guid w.outside container h)).at looked in
        Adds-trans (OnContainer env w.outside op) w.calls looked.calls _
          (get_container guid ∷ [], (inl refl, tt), refl)
          (
            new,
            All-mono _ _ (λ c on. inr (inr (container, h, tt, on))) new all,
            ap (λ r. r.1.calls) (execute_container_found guid w container h) ∙ e,
          )

    found-OnContainer :
        (op : Operation) (w : World S) (container : Container)
        → (env.answer (get_container (key op)) w.outside).0 ≡ ok container
        → Adds (OnContainer env w.outside op) w.calls (execute env cell_id ttl op w).1.calls
    unfolding execute key
    found-OnContainer (container_operation guid) w container h =
        container-OnContainer guid w container h
    found-OnContainer (residual_instance_lrp k i) w container h =
        residual-OnContainer (residual_instance_lrp k i) w container tt h
    found-OnContainer (residual_evacuating_lrp k i) w container h =
        residual-OnContainer (residual_evacuating_lrp k i) w container tt h
    found-OnContainer (residual_joint_lrp k i) w container h =
        residual-OnContainer (residual_joint_lrp k i) w container tt h
    found-OnContainer (residual_task guid) w container h =
        residual-OnContainer (residual_task guid) w container tt h

    -- If the executor and the BBS answer lookups with what was looked up, an operation touches nothing but
    -- what it is for. Besides the lookup of its key, a residual operation makes no call but the removals
    -- of its own LRP or task, and these only if the executor answered that it has no such container. A
    -- container operation calls the executor only about the container that the executor answered with,
    -- reports to the BBS only about the task of its key and the LRP instance that the tags of this
    -- container name, and makes no call about the whole cell but to ask whether it evacuates.
    pub execute-OnContainer :
        (op : Operation) (w : World S)
        → Adds (OnContainer env w.outside op) w.calls (execute env cell_id ttl op w).1.calls
    execute-OnContainer op w = by_answer (env.answer (get_container (key op)) w.outside).0 refl
      where
        by_answer :
            (r : Result ExecutorError Container)
            → (env.answer (get_container (key op)) w.outside).0 ≡ r
            → Adds (OnContainer env w.outside op) w.calls (execute env cell_id ttl op w).1.calls
        by_answer (ok container) h = found-OnContainer op w container h
        by_answer (err e) h = missing-OnContainer op w e h
