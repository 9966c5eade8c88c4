-- ===== src/Processor/Ordinary.antt =====
-- generator/internal/ordinary_lrp_processor.go: what the rep does with the container of an LRP
-- while the cell is not evacuating. Logging is left out.
pub mod Claiming
pub mod Reports
use rep.Base.{String, Bool, true, false, Option, none, some}
use rep.Base.Tests.{if◌then◌else◌}
use rep.Base.Result.{Result, ok, err}
use rep.Cell.{ActualLrpKey}
use rep.Models.{
  ActualLrpInstanceKey, Container, ContainerState, reserved, initializing, created, running,
  completed, other_state,
}
use rep.Conversion.Tags.{
  actual_lrp_key_from_tags, actual_lrp_instance_key_from_container,
  actual_lrp_net_info_from_container,
}
use rep.Conversion.Runs.{new_run_request_from_desired_lrp}
use rep.Services.{
  BbsError, actual_lrp_cannot_be_claimed, actual_lrp_cannot_be_started, Env, M, pure, ask,
  on_result, ◌>>=◌, ◌>>◌, claim_actual_lrp, start_actual_lrp, crash_actual_lrp, remove_actual_lrp,
  desired_lrp_by_process_guid,
}
use rep.Delegate.{delete, stop, run}

pub record LrpContainer : Type 0 where
  pub key : ActualLrpKey
  pub instance_key : ActualLrpInstanceKey
  pub container : Container

-- bbsErr.Type == models.Error_ActualLRPCannotBeClaimed, and CannotBeStarted.
unfoldable pub cannot_be_claimed : BbsError → Bool
cannot_be_claimed actual_lrp_cannot_be_claimed = true
cannot_be_claimed _ = false

unfoldable pub cannot_be_started : BbsError → Bool
cannot_be_started actual_lrp_cannot_be_started = true
cannot_be_started _ = false

module _ {S : Type 0} (env : Env S) where
  unfoldable pub claim_lrp_container : LrpContainer → M S Bool
  claim_lrp_container l = do
    claimed ← ask env (claim_actual_lrp l.key.process_guid l.key.index l.instance_key)
    on_result claimed (λ _. pure true)
        (λ e.
          if cannot_be_claimed e then (do delete env l.container.guid; pure false) else pure false)

  -- The end of processReservedContainer, from the run request on.
  unfoldable pub run_claimed : LrpContainer → M S (Unit {0})
  run_claimed l = do
    desired ← ask env (desired_lrp_by_process_guid l.key.process_guid)
    on_result desired
        (λ d.
          on_result
            (new_run_request_from_desired_lrp env.lib l.container.guid d l.key l.instance_key)
            (λ run_req. do
              started ← run env run_req
              if started then pure tt else (do
                ask env (remove_actual_lrp l.key.process_guid l.key.index l.instance_key)
                pure tt))
            (λ _. pure tt))
        (λ _. pure tt)

  unfoldable pub process_reserved_container : LrpContainer → M S (Unit {0})
  process_reserved_container l = do
    claimed ← claim_lrp_container l
    if claimed then run_claimed l else pure tt

  unfoldable pub process_initializing_container : LrpContainer → M S (Unit {0})
  process_initializing_container l = do claim_lrp_container l; pure tt

  unfoldable pub process_created_container : LrpContainer → M S (Unit {0})
  process_created_container l = do claim_lrp_container l; pure tt

  unfoldable pub process_running_container : LrpContainer → M S (Unit {0})
  process_running_container l =
      on_result (actual_lrp_net_info_from_container env.lib l.container)
        (λ net_info. do
          started ← ask env (start_actual_lrp l.key l.instance_key net_info)
          on_result started (λ _. pure tt)
              (λ e.
                if cannot_be_started e then (do stop env l.container.guid; pure tt) else pure tt))
        (λ _. pure tt)

  -- RemoveActualLRP if the container was stopped, CrashActualLRP otherwise; errors are logged.
  unfoldable pub report_completed : LrpContainer → M S (Unit {0})
  report_completed l =
      if l.container.run_result.stopped
      then (do ask env (remove_actual_lrp l.key.process_guid l.key.index l.instance_key); pure tt)
      else (do
        ask env (crash_actual_lrp l.key l.instance_key l.container.run_result.failure_reason)
        pure tt)

  unfoldable pub process_completed_container : LrpContainer → M S (Unit {0})
  process_completed_container l = do report_completed l; delete env l.container.guid; pure tt

  -- The switch on the container's state; processInvalidContainer only logs.
  unfoldable pub process_state : ContainerState → LrpContainer → M S (Unit {0})
  process_state reserved l = process_reserved_container l
  process_state initializing l = process_initializing_container l
  process_state created l = process_created_container l
  process_state running l = process_running_container l
  process_state completed l = process_completed_container l
  process_state (other_state _) l = pure tt

  -- Process.
  unfoldable pub process : String → Container → M S (Unit {0})
  process cell_id container =
      on_result (actual_lrp_key_from_tags env.lib container.tags)
        (λ lrp_key.
          on_result (actual_lrp_instance_key_from_container env.lib container cell_id)
            (λ instance_key.
              process_state container.state
                (record { key = lrp_key; instance_key = instance_key; container = container }))
            (λ _. pure tt))
        (λ _. pure tt)
