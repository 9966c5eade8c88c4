-- ===== src/Processor/Ordinary/Reports.antt =====
-- What the ordinary processor of LRPs reports to the BBS and does with the container, state by state.
use rep.Base.{String, ◌⊎◌, inl, inr, ◌≡◌, refl, List, ◌∷◌, arith}
use rep.Base.Tests.{if◌then◌else◌}
use rep.Base.Result.{Result, ok, err}
use rep.Models.{Container, DesiredLrp, RunRequest, ActualLrpNetInfo}
use rep.Conversion.Tags.{
  ConversionError, actual_lrp_key_from_tags, actual_lrp_instance_key_from_container,
  actual_lrp_net_info_from_container,
}
use rep.Conversion.Runs.{new_run_request_from_desired_lrp}
use rep.Services.{
  Call, BbsError, actual_lrp_cannot_be_claimed, actual_lrp_cannot_be_started, ExecutorError, Env,
  World, delete_container, stop_container, run_container, claim_actual_lrp, start_actual_lrp,
  crash_actual_lrp, remove_actual_lrp, desired_lrp_by_process_guid,
}
use rep.Delegate.{delete, stop, run}
use rep.Processor.Ordinary.{
  LrpContainer, cannot_be_claimed, cannot_be_started, claim_lrp_container, run_claimed,
  process_reserved_container, process_running_container, report_completed,
  process_completed_container, process,
}

-- The call that claims the LRP of a container, and the one that removes it.
abbrev pub claim : LrpContainer → Call
claim l = claim_actual_lrp l.key.process_guid l.key.index l.instance_key

abbrev pub removal : LrpContainer → Call
removal l = remove_actual_lrp l.key.process_guid l.key.index l.instance_key

-- The calls once RunContainer has answered: none if it ran, the deletion of the container and the
-- removal of the LRP if it failed.
abbrev pub after_run :
    LrpContainer → String → Result ExecutorError (Unit {0}) → List Call → List Call
after_run l guid (ok _) calls = calls
after_run l guid (err _) calls = removal l ∷ delete_container guid ∷ calls

-- The calls once StartActualLRP has answered.
abbrev pub after_start : LrpContainer → Result BbsError (Unit {0}) → List Call → List Call
after_start l (ok _) calls = calls
after_start l (err actual_lrp_cannot_be_started) calls = stop_container l.container.guid ∷ calls
after_start l (err _) calls = calls

-- The calls once ClaimActualLRP has failed.
abbrev pub after_refusal : LrpContainer → BbsError → List Call → List Call
after_refusal l actual_lrp_cannot_be_claimed calls = delete_container l.container.guid ∷ calls
after_refusal l _ calls = calls

module _ {S : Type 0} (env : Env S) (l : LrpContainer) where
  -- A completed container: one report, RemoveActualLRP if it was stopped and CrashActualLRP with the
  -- reason of its failure otherwise, and then, whatever the BBS answers, its deletion.
  pub process_completed_container-calls :
      (w : World S)
      → (process_completed_container env l w).1.calls
        ≡ delete_container l.container.guid
          ∷ (if l.container.run_result.stopped
              then removal l
              else crash_actual_lrp l.key l.instance_key l.container.run_result.failure_reason)
          ∷ w.calls
  unfolding process_completed_container report_completed delete
  process_completed_container-calls w = ground arith

  -- A reserved container whose LRP cannot be claimed is not run: it is deleted if the BBS answers
  -- that the LRP cannot be claimed, and left alone on any other error.
  pub process_reserved_container_refused :
      (w : World S) (e : BbsError)
      → (env.answer (claim l) w.outside).0 ≡ err e
      → (process_reserved_container env l w).1.calls ≡ (
          if cannot_be_claimed e
          then delete_container l.container.guid ∷ claim l ∷ w.calls
          else claim l ∷ w.calls)
  unfolding process_reserved_container claim_lrp_container delete cannot_be_claimed
  process_reserved_container_refused w e h = rw h (ground arith)

  module _ (w : World S) (s t : S) (desired : DesiredLrp) (req : RunRequest)
      (claimed : env.answer (claim l) w.outside ≡ (ok tt, s))
      (found : env.answer (desired_lrp_by_process_guid l.key.process_guid) s ≡ (ok desired, t))
      (made : new_run_request_from_desired_lrp env.lib l.container.guid desired l.key l.instance_key
        ≡ ok req) where
    -- A reserved container whose LRP was claimed, and for which a run request can be built, is run. If
    -- the executor fails to run it, it is deleted and its LRP is removed from the BBS; otherwise
    -- nothing more is called.
    pub process_reserved_container_claimed : (process_reserved_container env l w).1.calls ≡ (
        after_run l req.guid
          (env.answer (run_container req) t).0
          (run_container req ∷ desired_lrp_by_process_guid l.key.process_guid ∷ claim l ∷ w.calls))
    unfolding process_reserved_container claim_lrp_container run_claimed run delete
    process_reserved_container_claimed = rw (claimed, found, made) (ground arith)

  -- A running container is started in the BBS under its network information; it is stopped exactly
  -- when the BBS answers that the LRP cannot be started, and never deleted.
  pub process_running_container-calls :
      (w : World S) (net_info : ActualLrpNetInfo)
      → actual_lrp_net_info_from_container env.lib l.container ≡ ok net_info
      → (process_running_container env l w).1.calls
        ≡ after_start l
            (env.answer (start_actual_lrp l.key l.instance_key net_info) w.outside).0
            (start_actual_lrp l.key l.instance_key net_info ∷ w.calls)
  unfolding process_running_container stop cannot_be_started
  process_running_container-calls w net_info h = rw h (ground arith)

  process_running_container_without_net_info :
      (w : World S) (e : ConversionError)
      → actual_lrp_net_info_from_container env.lib l.container ≡ err e
      → process_running_container env l w ≡ (tt, w)
  unfolding process_running_container
  process_running_container_without_net_info w e h = rw h refl

-- The errors with which the keys of a container cannot be read.
abbrev pub Unreadable : {S : Type 0} → Env S → String → Container → Type 0
Unreadable env cell_id container =
    ((e : ConversionError) × (actual_lrp_key_from_tags env.lib container.tags ≡ err e))
    ⊎ ((e : ConversionError) × (actual_lrp_instance_key_from_container env.lib container cell_id
          ≡ err e))

-- A container whose LRP key or instance key cannot be read from its tags is left alone: no call is
-- made, in whatever state it is.
pub process-Unreadable :
    {S : Type 0} (env : Env S) (cell_id : String) (container : Container) (w : World S)
    → Unreadable env cell_id container
    → process env cell_id container w ≡ (tt, w)
unfolding process
process-Unreadable env cell_id container w (inl (e, h)) = rw h refl
process-Unreadable env cell_id container w (inr (e, h)) = rw h (ground arith)
