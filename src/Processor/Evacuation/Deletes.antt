-- ===== src/Processor/Evacuation/Deletes.antt =====
-- What the evacuating processor of LRPs tells the BBS, and when it deletes the container.
use rep.Base.{ℕ, ◌≡◌, refl, List, ◌∷◌, arith}
use rep.Base.Tests.{if◌then◌else◌}
use rep.Base.Result.{ok, err}
use rep.Models.{ContainerState, reserved, initializing, created, running, completed, other_state}
use rep.Conversion.Tags.{actual_lrp_net_info_from_container}
use rep.Services.{
  Call, Env, World, delete_container, evacuate_claimed_actual_lrp, evacuate_running_actual_lrp,
  evacuate_stopped_actual_lrp, evacuate_crashed_actual_lrp,
}
use rep.Delegate.{delete}
use rep.Processor.Ordinary.{LrpContainer}
use rep.Processor.Evacuation.{
  evacuate_claimed_lrp_container, process_running_container, report_completed,
  process_completed_container, process_state,
}

-- How the evacuation of a container ends: the calls that it makes after `calls`, by its state, its
-- network information, and whether the BBS asks to keep the container.
abbrev pub evacuation_calls :
    {S : Type 0} → Env S → ContainerState → ℕ → LrpContainer → World S → List Call
evacuation_calls env reserved ttl l w =
    delete_container l.container.guid ∷ evacuate_claimed_actual_lrp l.key l.instance_key ∷ w.calls
evacuation_calls env initializing ttl l w =
    delete_container l.container.guid ∷ evacuate_claimed_actual_lrp l.key l.instance_key ∷ w.calls
evacuation_calls env created ttl l w =
    delete_container l.container.guid ∷ evacuate_claimed_actual_lrp l.key l.instance_key ∷ w.calls
evacuation_calls env running ttl l w =
    elim (actual_lrp_net_info_from_container env.lib l.container) [
      | ok net_info ↦
          let call = evacuate_running_actual_lrp l.key l.instance_key net_info ttl in
          if (env.answer call w.outside).0.0
          then call ∷ w.calls
          else delete_container l.container.guid ∷ call ∷ w.calls
      | err _ ↦ w.calls
    ]
evacuation_calls env completed ttl l w =
    delete_container l.container.guid
    ∷ (if l.container.run_result.stopped
        then evacuate_stopped_actual_lrp l.key l.instance_key
        else evacuate_crashed_actual_lrp l.key l.instance_key l.container.run_result.failure_reason)
    ∷ w.calls
evacuation_calls env (other_state _) ttl l w = w.calls

-- While the cell evacuates, a container that is reserved, initializing or created is unclaimed in the
-- BBS and deleted, a completed one is reported stopped or crashed and deleted, and a running one is
-- reported with the evacuation TTL and deleted exactly if the BBS does not ask to keep it. Deletion
-- comes last and does not depend on whether the report succeeds. A container in no known state, and
-- a running one without valid network information, is left alone.
pub process_state-calls :
    {S : Type 0} (env : Env S) (state : ContainerState) (ttl : ℕ) (l : LrpContainer) (w : World S)
    → (process_state env state ttl l w).1.calls ≡ evacuation_calls env state ttl l w
unfolding process_state evacuate_claimed_lrp_container process_running_container report_completed
    process_completed_container delete
process_state-calls env reserved ttl l w = ground arith
process_state-calls env initializing ttl l w = ground arith
process_state-calls env created ttl l w = ground arith
process_state-calls env running ttl l w = ground arith
process_state-calls env completed ttl l w = ground arith
process_state-calls env (other_state s) ttl l w = refl
