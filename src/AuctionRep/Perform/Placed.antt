-- ===== src/AuctionRep/Perform/Placed.antt =====
-- From the auction to the processors: how a container that Perform asked for is handled later, when an
-- operation finds it.
use rep.Base.{subst, sym, false, ℕ, String, true, ◌≡◌, refl, ◌∙◌, ap, some, arith, inl, inr}
use rep.Base.Tests.{if◌then◌else◌, Bool-cases}
use rep.Base.Int.{half32, InWord}
use rep.Base.GoMap.{lookup, put}
use rep.Base.Result.{ok}
use rep.Cell.{Lrp}
use rep.Models.{Container, reserved}
use rep.Base.{false, ◌∷◌}
use rep.Conversion.Tags.{
  tag, tag_of, lifecycle_tag, lrp_lifecycle, actual_lrp_key_from_tags,
  actual_lrp_instance_key_from_container,
}
use rep.Services.{Env, Library, World, ask, get_container, evacuating}
use rep.Delegate.{fetch_container}
use rep.Processor.{process_lrp}
use rep.Processor.Ordinary
use rep.Processor.Ordinary.{LrpContainer}
use rep.Processor.Ordinary.Claiming.{Claims, process_reserved_container-Claims}
use rep.Processor.Evacuation
use rep.Operation.{
  container_operation, execute, execute_container, process_found, process_lifecycle,
}
use rep.AuctionRep.Perform.{lrp_request, lrp_tags}
use rep.AuctionRep.Perform.Translation.{lrp_request-tags}

-- The container is one that the executor made for the request of the LRP, in whatever state it is now.
pub record IsFor (lib : Library) (lrp : Lrp) (instance_guid path : String) (container : Container)
    : Type 0 where
  pub guid : container.guid ≡ (lrp_request lib lrp instance_guid path).guid
  pub tags : container.tags ≡ some (lrp_request lib lrp instance_guid path).tags

-- The keys of the LRP and of its instance on the cell.
abbrev pub placed : Lrp → String → String → Container → LrpContainer
placed lrp instance_guid cell_id container = record {
  key = lrp.key;
  instance_key = record { instance_guid = instance_guid; cell_id = cell_id };
  container = container;
}

module _ {S : Type 0} (env : Env S) (cell_id : String) (lrp : Lrp) (instance_guid path : String)
    (container : Container) (for_lrp : IsFor env.lib lrp instance_guid path container)
    (parses : env.lib.atoi (env.lib.itoa lrp.key.index) ≡ some lrp.key.index)
    (word : InWord half32 lrp.key.index) (valid : env.lib.key_valid lrp.key ≡ true)
    (valid_instance : env.lib.instance_key_valid
        (record { instance_guid = instance_guid; cell_id = cell_id })
      ≡ true) where
  key_read : actual_lrp_key_from_tags env.lib container.tags ≡ ok lrp.key
  key_read =
      ap (actual_lrp_key_from_tags env.lib) for_lrp.tags
      ∙ (lrp_request-tags env.lib lrp instance_guid path parses word valid).1

  instance_key_read :
      actual_lrp_instance_key_from_container env.lib container cell_id
      ≡ ok (record { instance_guid = instance_guid; cell_id = cell_id })
  unfolding actual_lrp_instance_key_from_container lrp_request lrp_tags put tag_of lookup
  instance_key_read = ground (arith, for_lrp.tags, valid_instance)

  lifecycle_read : tag container.tags lifecycle_tag ≡ lrp_lifecycle
  lifecycle_read =
      ap (λ tags. tag tags lifecycle_tag) for_lrp.tags
      ∙ (lrp_request-tags env.lib lrp instance_guid path parses word valid).0

  ordinary_lem :
      (w : World S)
      → Ordinary.process env cell_id container w
        ≡ Ordinary.process_state env container.state (placed lrp instance_guid cell_id container) w
  unfolding Ordinary.process
  ordinary_lem w = rw (key_read, instance_key_read) refl

  evacuation_lem :
      (ttl : ℕ) (w : World S)
      → Evacuation.process env cell_id ttl container w
        ≡ Evacuation.process_state env container.state ttl
            (placed lrp instance_guid cell_id container)
            w
  unfolding Evacuation.process
  evacuation_lem ttl w = rw (key_read, instance_key_read) refl

  -- A container that the executor made for a request of Perform is handled as the LRP of that request: if the
  -- executor still has it, its operation looks it up, asks whether the cell evacuates, and hands it to the
  -- processor for the answer under the LRP's own key and the instance guid of the request, in whatever
  -- state it is. The index of the LRP is an int32 that strconv prints and parses back, and both keys are
  -- valid.
  pub execute-placed :
      (ttl : ℕ) (w : World S)
      → let guid = (lrp_request env.lib lrp instance_guid path).guid in
        (env.answer (get_container guid) w.outside).0 ≡ ok container
        → let found = (ask env (get_container guid) w).1 in
          let looked = (ask env evacuating found).1 in
          let l = placed lrp instance_guid cell_id container in
          execute env cell_id ttl (container_operation guid) w ≡ (
            if (env.answer evacuating found.outside).0
            then Evacuation.process_state env container.state ttl l looked
            else Ordinary.process_state env container.state l looked)
  unfolding execute execute_container fetch_container process_found process_lifecycle process_lrp
  execute-placed ttl w found =
      let after = (ask env (get_container (lrp_request env.lib lrp instance_guid path).guid) w).1 in
      rw (found, lifecycle_read)
        (elim (Bool-cases (env.answer evacuating after.outside).0) [
          | inl draining ↦ rw draining (evacuation_lem ttl (ask env evacuating after).1)
          | inr steady ↦ rw steady (ordinary_lem (ask env evacuating after).1)
        ])

  -- An LRP that Perform placed is run as what it is. Where the executor still has the container that it made
  -- for the request, reserved, and the cell does not evacuate, its operation claims the LRP's own process and
  -- index for the instance of the request on this cell. If the BBS refuses, the container is deleted where
  -- the LRP cannot be claimed, and there is no further call otherwise. If the BBS grants the claim, it is
  -- asked for the desired LRP of the LRP's own process. If it has none, or one whose rootfs or volume mounts
  -- cannot be converted, there is no further call. Otherwise the container is run with a request that
  -- agrees with the desired LRP field by field, and whose first variables of the environment are the
  -- instance guid and the index of the LRP; if the executor fails to run it, it is deleted and the LRP
  -- removed. The index of the LRP is an int32 that strconv prints and parses back, and both keys are valid.
  pub execute-runs :
      (ttl : ℕ) (w : World S)
      → let guid = (lrp_request env.lib lrp instance_guid path).guid in
        let l = placed lrp instance_guid cell_id container in
        let looked = (ask env evacuating (ask env (get_container guid) w).1).1 in
        (env.answer (get_container guid) w.outside).0 ≡ ok container
        → container.state ≡ reserved
        → (env.answer evacuating (ask env (get_container guid) w).1.outside).0 ≡ false
        → Claims env l looked.outside
            (evacuating ∷ get_container guid ∷ w.calls)
            (execute env cell_id ttl (container_operation guid) w).1.calls
  unfolding Ordinary.process_state
  execute-runs ttl w found is_reserved steady =
      let l = placed lrp instance_guid cell_id container in
      let guid = (lrp_request env.lib lrp instance_guid path).guid in
      let looked = (ask env evacuating (ask env (get_container guid) w).1).1 in
      subst (Claims env l looked.outside looked.calls)
        (sym (
          ap (λ r. r.1.calls) (execute-placed ttl w found)
          ∙ ap
              (λ evacuates.
                (if evacuates
                  then Evacuation.process_state env container.state ttl l looked
                  else Ordinary.process_state env container.state l looked).1.calls)
              steady
          ∙ ap (λ st. (Ordinary.process_state env st l looked).1.calls) is_reserved))
        (process_reserved_container-Claims env l looked)
