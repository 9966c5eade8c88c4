-- ===== src/Evacuator/Drained.antt =====
-- The cell while it evacuates, as a whole: the operations of its containers, the executor that holds
-- these, and the evacuator that waits until none is left.
use rep.Base.{
  ℕ, String, true, false, List, [], ◌∷◌, ◌≡◌, refl, sym, ap, subst, Memᴰ, inl, inr, arith,
}
use rep.Base.Int.{ℤ}
use rep.Base.Result.{ok, err, Result-cases}
use rep.Cell.{ActualLrpKey}
use rep.Models.{
  ActualLrpInstanceKey, ActualLrpNetInfo, Container, ContainerState, reserved, initializing,
  created, running, completed, other_state,
}
use rep.Conversion.Tags.{
  tag, lifecycle_tag, lrp_lifecycle, actual_lrp_key_from_tags,
  actual_lrp_instance_key_from_container, actual_lrp_net_info_from_container,
}
use rep.Services.{
  ExecutorError, ask, Call, Env, World, list_containers, get_container, delete_container,
  evacuate_running_actual_lrp, evacuating,
}
use rep.Services.Latch.{Latches}
use rep.Services.Stays.{allocates, IsKept}
use rep.Delegate.{delete, fetch_container}
use rep.Processor.{process_lrp}
use rep.Processor.Ordinary.{LrpContainer}
use rep.Processor.Evacuation
use rep.Operation.{
  Operation, container_operation, execute, execute_container, process_found, process_lifecycle,
}
use rep.Operation.Stays.{execute-Stays}
use rep.Evacuator.{
  Evacuator, evacuating_cell, returned, complete, checking, checked, check, finish, Steps, stay,
  then_step, is_empty, all_containers_evacuated,
}

-- Some container of the list has the guid.
abbrev pub HasGuid : String → List Container → Type 0
HasGuid guid containers = (c : Container) × Memᴰ c containers × (c.guid ≡ guid)

-- The executor, as the rep relies on it: it holds containers, which it lists and finds by their guids;
-- DeleteContainer takes a container away; and no call but AllocateContainers brings one in.
pub record Executor {S : Type 0} (env : Env S) : Type 0 where
  pub containers : S → List Container
  pub lists : (s : S) → (env.answer list_containers s).0 ≡ ok (containers s)
  pub finds :
      (s : S) (c : Container)
      → Memᴰ c (containers s)
      → (env.answer (get_container c.guid) s).0 ≡ ok c
  pub found :
      (s : S) (guid : String) (c : Container)
      → (env.answer (get_container guid) s).0 ≡ ok c
      → Memᴰ c (containers s) × (c.guid ≡ guid)
  pub keeps :
      (c : Call) (s : S) (guid : String)
      → allocates c ≡ false
      → HasGuid guid (containers (env.answer c s).1)
      → HasGuid guid (containers s)
  pub deletes :
      (s : S) (guid : String)
      → HasGuid guid (containers (env.answer (delete_container guid) s).1)
      → ⊥

abbrev pub IsKnown : ContainerState → Type 0
IsKnown (other_state _) = ⊥
IsKnown _ = Unit

-- The container of an LRP that evacuation can take away: its keys can be read, its state is known, and
-- if it runs, its network information can be read and the BBS never asks to keep it.
pub record Drains {S : Type 0} (env : Env S) (cell_id : String) (ttl : ℕ) (c : Container)
    : Type 0 where
  pub lifecycle : tag c.tags lifecycle_tag ≡ lrp_lifecycle
  pub key : ActualLrpKey
  pub key_read : actual_lrp_key_from_tags env.lib c.tags ≡ ok key
  pub instance_key : ActualLrpInstanceKey
  pub instance_read : actual_lrp_instance_key_from_container env.lib c cell_id ≡ ok instance_key
  pub known : IsKnown c.state
  pub released :
      c.state ≡ running
      → (info : ActualLrpNetInfo) × (actual_lrp_net_info_from_container env.lib c ≡ ok info)
        × ((s : S)
            → (env.answer (evacuate_running_actual_lrp key instance_key info ttl) s).0.0 ≡ false)

-- The operations executed one after the other.
abbrev pub execute_each : {S : Type 0} → Env S → String → ℕ → List Operation → World S → World S
execute_each env cell_id ttl [] w = w
execute_each env cell_id ttl (op ∷ more) w =
    execute_each env cell_id ttl more (execute env cell_id ttl op w).1

pub draining-IsKept :
    {S : Type 0} (env : Env S) → Latches env → IsKept env (λ s. (env.answer evacuating s).0 ≡ true)
draining-IsKept env latches = record { kept = λ c s h draining. latches.keeps c s draining }

-- Guids are only lost while operations are executed.
pub HasGuid-IsKept :
    {S : Type 0} (env : Env S) (x : Executor env) (guid : String) (before : List Container)
    → IsKept env (λ s. HasGuid guid (x.containers s) → HasGuid guid before)
HasGuid-IsKept env x guid before = record {
  kept = λ c s h earlier after. earlier (x.keeps c s guid h after);
}

module _ {S : Type 0} (env : Env S) (x : Executor env) (cell_id : String) (ttl : ℕ) where
  -- No container has the guid.
  abbrev Gone : String → S → Type 0
  Gone guid s = HasGuid guid (x.containers s) → ⊥

  delete-Gone : (guid : String) (w : World S) → Gone guid (delete env guid w).1.outside
  unfolding delete
  delete-Gone guid w = subst (Gone guid) (sym same) (x.deletes w.outside guid)
    where
      same : (delete env guid w).1.outside ≡ (env.answer (delete_container guid) w.outside).1
      same = ground arith

  state-Gone :
      (state : ContainerState) (l : LrpContainer) (w : World S)
      → IsKnown state
      → (state ≡ running
          → (info : ActualLrpNetInfo) × (actual_lrp_net_info_from_container env.lib l.container
              ≡ ok info)
            × ((s : S)
                → (env.answer (evacuate_running_actual_lrp l.key l.instance_key info ttl) s).0.0
                  ≡ false))
      → Gone l.container.guid (Evacuation.process_state env state ttl l w).1.outside
  unfolding Evacuation.process_state Evacuation.evacuate_claimed_lrp_container
      Evacuation.process_running_container Evacuation.process_completed_container
  state-Gone reserved l w known released = delete-Gone l.container.guid _
  state-Gone initializing l w known released = delete-Gone l.container.guid _
  state-Gone created l w known released = delete-Gone l.container.guid _
  state-Gone running l w known released =
      let (info, read, let_go) = released refl in
      rw read (rw (let_go w.outside) (delete-Gone l.container.guid _))
  state-Gone completed l w known released = delete-Gone l.container.guid _
  state-Gone (other_state _) l w known released = absurd known

  module _ (latches : Latches env)
      (drains : (s : S) (c : Container) → Memᴰ c (x.containers s) → Drains env cell_id ttl c) where
    -- The evacuating processor takes the container away.
    process_lrp-Gone :
        (c : Container) (w : World S)
        → Drains env cell_id ttl c
        → (env.answer evacuating w.outside).0 ≡ true
        → Gone c.guid (process_lrp env cell_id ttl c w).1.outside
    unfolding process_lrp Evacuation.process
    process_lrp-Gone c w d draining =
        rw (draining, d.key_read, d.instance_read) (state-Gone c.state _ _ d.known d.released)

    found-Gone :
        (guid : String) (c : Container) (w : World S)
        → (env.answer evacuating w.outside).0 ≡ true
        → (env.answer (get_container guid) w.outside).0 ≡ ok c
        → Gone guid (execute env cell_id ttl (container_operation guid) w).1.outside
    unfolding execute execute_container fetch_container process_found process_lifecycle
    found-Gone guid c w draining h =
        let (m, same) = x.found w.outside guid c h in
        let d = drains w.outside c m in
        rw (h, d.lifecycle)
          (subst
            (λ g.
              Gone g (process_lrp env cell_id ttl c (ask env (get_container guid) w).1).1.outside)
            same
            (process_lrp-Gone c (ask env (get_container guid) w).1 d
              (latches.keeps (get_container guid) w.outside draining)))

    -- A container that is not found is not there.
    missing-Gone :
        (guid : String) (e : ExecutorError) (w : World S)
        → (env.answer (get_container guid) w.outside).0 ≡ err e
        → Gone guid (execute env cell_id ttl (container_operation guid) w).1.outside
    unfolding execute execute_container fetch_container process_found
    missing-Gone guid e w h = rw h λ after.
        let (c, m, same) = x.keeps (get_container guid) w.outside guid refl after in
        absurd (ground (arith, h, x.finds w.outside c m, same))

    container-Gone :
        (guid : String) (w : World S)
        → (env.answer evacuating w.outside).0 ≡ true
        → Gone guid (execute env cell_id ttl (container_operation guid) w).1.outside
    container-Gone guid w draining =
        elim (Result-cases (env.answer (get_container guid) w.outside).0) [
          | inl (c, h) ↦ found-Gone guid c w draining h
          | inr (e, h) ↦ missing-Gone guid e w h
        ]

    Gone-IsKept : (guid : String) → IsKept env (Gone guid)
    Gone-IsKept guid = record { kept = λ c s h gone after. gone (x.keeps c s guid h after) }

    execute_each-Stays :
        {P : S → Type 0} (ops : List Operation) (w : World S)
        → IsKept env P
        → P w.outside
        → P (execute_each env cell_id ttl ops w).outside
    execute_each-Stays [] w k p = p
    execute_each-Stays (op ∷ ops) w k p =
        execute_each-Stays ops (execute env cell_id ttl op w).1 k
          ((execute-Stays env k cell_id ttl op).at w p)

    executed-Gone :
        (guid : String) (ops : List Operation) (w : World S)
        → (env.answer evacuating w.outside).0 ≡ true
        → Memᴰ (container_operation guid) ops
        → Gone guid (execute_each env cell_id ttl ops w).outside
    executed-Gone guid [] w draining m = elim m [ ]
    executed-Gone guid (op ∷ ops) w draining (Memᴰ.head e) =
        execute_each-Stays ops (execute env cell_id ttl op w).1 (Gone-IsKept guid) (
          subst (λ o. Gone guid (execute env cell_id ttl o w).1.outside) e
            (container-Gone guid w draining))
    executed-Gone guid (op ∷ ops) w draining (Memᴰ.tail m) =
        executed-Gone guid ops (execute env cell_id ttl op w).1
          ((execute-Stays env (draining-IsKept env latches) cell_id ttl op).at w draining) m

    empty_of_none : (cs : List Container) → ((c : Container) → Memᴰ c cs → ⊥) → cs ≡ []
    empty_of_none [] h = refl
    empty_of_none (c ∷ cs) h = absurd (h c (Memᴰ.head refl))

    -- Executions that take every container of a list in turn leave none, if there were no others.
    pub execute_each-empty :
        (ops : List Operation) (before : List Container) (w : World S)
        → (env.answer evacuating w.outside).0 ≡ true
        → ((guid : String) → HasGuid guid (x.containers w.outside) → HasGuid guid before)
        → ((c : Container) → Memᴰ c before → Memᴰ (container_operation c.guid) ops)
        → x.containers (execute_each env cell_id ttl ops w).outside ≡ []
    execute_each-empty ops before w draining shrunk covers = empty_of_none _ λ c m.
        let (b, was, same) =
          execute_each-Stays ops w (HasGuid-IsKept env x c.guid before) (shrunk c.guid)
            (c, m, refl) in
        executed-Gone b.guid ops w draining (covers b was) (c, m, sym same)

all_evacuated :
    {S : Type 0} (env : Env S) (x : Executor env) (w : World S)
    → x.containers w.outside ≡ []
    → (all_containers_evacuated env w).0 ≡ true
unfolding all_containers_evacuated is_empty
all_evacuated env x w none_left = rw (x.lists w.outside, none_left) refl

-- An evacuator whose loop checks the executor when it holds no container completes.
pub empty-Steps :
    {S : Type 0} (env : Env S) (x : Executor env) (polling_interval : ℤ) (e : Evacuator S)
    → e.phase ≡ evacuating_cell
    → e.poller ≡ checking
    → x.containers e.world.outside ≡ []
    → (f : Evacuator S) × Steps env polling_interval e f × (f.phase ≡ returned complete)
empty-Steps env x polling_interval e at checks none_left = (
  _,
  then_step (then_step stay (check checks))
      (finish at (ap checked (all_evacuated env x e.world none_left))),
  refl,
)
