-- ===== src/Processor/Evacuation.antt =====
-- generator/internal/evacuation_lrp_processor.go: what the rep does with the container of an LRP
-- while the cell is evacuating. Logging is left out.
pub mod Deletes
use rep.Base.{ℕ, String, Bool, true, false}
use rep.Base.Tests.{if◌then◌else◌}
use rep.Base.Result.{Result, ok, err}
use rep.Models.{
  Container, ContainerState, reserved, initializing, created, running, completed, other_state,
}
use rep.Conversion.Tags.{
  actual_lrp_key_from_tags, actual_lrp_instance_key_from_container,
  actual_lrp_net_info_from_container,
}
use rep.Services.{
  Env, M, pure, ask, on_result, ◌>>=◌, ◌>>◌, evacuate_claimed_actual_lrp,
  evacuate_running_actual_lrp, evacuate_stopped_actual_lrp, evacuate_crashed_actual_lrp,
}
use rep.Delegate.{delete}
use rep.Processor.Ordinary.{LrpContainer}

module _ {S : Type 0} (env : Env S) where
  unfoldable pub evacuate_claimed_lrp_container : LrpContainer → M S (Unit {0})
  evacuate_claimed_lrp_container l = do
    ask env (evacuate_claimed_actual_lrp l.key l.instance_key)
    delete env l.container.guid
    pure tt

  unfoldable pub process_running_container : ℕ → LrpContainer → M S (Unit {0})
  process_running_container ttl l =
      on_result (actual_lrp_net_info_from_container env.lib l.container)
        (λ net_info. do
          answer ← ask env (evacuate_running_actual_lrp l.key l.instance_key net_info ttl)
          let keep_container = answer.0
          if keep_container then pure tt else (do delete env l.container.guid; pure tt))
        (λ _. pure tt)

  -- EvacuateStoppedActualLRP or EvacuateCrashedActualLRP; errors are logged.
  unfoldable pub report_completed : LrpContainer → M S (Unit {0})
  report_completed l =
      if l.container.run_result.stopped
      then (do ask env (evacuate_stopped_actual_lrp l.key l.instance_key); pure tt)
      else (do
        ask env
            (evacuate_crashed_actual_lrp l.key l.instance_key l.container.run_result.failure_reason)
        pure tt)

  unfoldable pub process_completed_container : LrpContainer → M S (Unit {0})
  process_completed_container l = do report_completed l; delete env l.container.guid; pure tt

  -- The switch on the container's state; the cases reserved, initializing and created have
  -- handlers with one body.
  unfoldable pub process_state : ContainerState → ℕ → LrpContainer → M S (Unit {0})
  process_state reserved ttl l = evacuate_claimed_lrp_container l
  process_state initializing ttl l = evacuate_claimed_lrp_container l
  process_state created ttl l = evacuate_claimed_lrp_container l
  process_state running ttl l = process_running_container ttl l
  process_state completed ttl l = process_completed_container l
  process_state (other_state _) ttl l = pure tt

  -- Process.
  unfoldable pub process : String → ℕ → Container → M S (Unit {0})
  process cell_id ttl container =
      on_result (actual_lrp_key_from_tags env.lib container.tags)
        (λ lrp_key.
          on_result (actual_lrp_instance_key_from_container env.lib container cell_id)
            (λ instance_key.
              process_state container.state ttl
                (record { key = lrp_key; instance_key = instance_key; container = container }))
            (λ _. pure tt))
        (λ _. pure tt)
