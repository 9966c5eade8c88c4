-- ===== src/Processor/Scope.antt =====
-- Which container and which LRP instance the processors of LRPs touch.
use rep.Base.{String, ℕ, ◌≡◌, arith}
use rep.Base.Result.{ok}
use rep.Models.{
  ActualLrpInstanceKey, Container, ContainerState, DesiredLrp, RunRequest, reserved, initializing,
  created, running, completed, other_state,
}
use rep.Conversion.Tags.{tag, instance_guid_tag, actual_lrp_instance_key_from_container}
use rep.Conversion.Runs.{new_run_request_from_desired_lrp}
use rep.Conversion.Requests.{new_run_request_from_desired_lrp-Runs}
use rep.Services.{Env}
use rep.Services.Only.{Only, Only-pure, Only-on_result, only_rules}
use rep.Processor.Ordinary
use rep.Processor.Ordinary.{LrpContainer}
use rep.Processor.Evacuation
use rep.Processor.{process_lrp}
use rep.Processor.Concerns.{Concerns, delegate_rules, run-Concerns}

module _ {S : Type 0} (env : Env S) where
  -- The ordinary processor, on a container with its LRP's keys.
  module _ (l : LrpContainer) (inst : String) (e : l.instance_key.instance_guid ≡ inst) where
    claim-Concerns : Only (Concerns l.container.guid inst) (Ordinary.claim_lrp_container env l)
    unfolding Ordinary.claim_lrp_container
    claim-Concerns = search delegate_rules depth 9

    run_guid :
        (d : DesiredLrp) (req : RunRequest)
        → new_run_request_from_desired_lrp env.lib l.container.guid d l.key l.instance_key ≡ ok req
        → req.guid ≡ l.container.guid
    run_guid d req h =
        let runs = new_run_request_from_desired_lrp-Runs env.lib _ d l.key l.instance_key req h in
        runs.guid_kept

    run_claimed-Concerns : Only (Concerns l.container.guid inst) (Ordinary.run_claimed env l)
    unfolding Ordinary.run_claimed
    run_claimed-Concerns = search (delegate_rules, run-Concerns, run_guid) depth 9

    running-Concerns :
        Only (Concerns l.container.guid inst) (Ordinary.process_running_container env l)
    unfolding Ordinary.process_running_container
    running-Concerns = search delegate_rules depth 9

    completed-Concerns :
        Only (Concerns l.container.guid inst) (Ordinary.process_completed_container env l)
    unfolding Ordinary.process_completed_container Ordinary.report_completed
    completed-Concerns = search delegate_rules depth 9

    ordinary_state-Concerns :
        (state : ContainerState)
        → Only (Concerns l.container.guid inst) (Ordinary.process_state env state l)
    unfolding Ordinary.process_state Ordinary.process_reserved_container
        Ordinary.process_initializing_container Ordinary.process_created_container
    ordinary_state-Concerns reserved =
        search (only_rules, claim-Concerns, run_claimed-Concerns) depth 9
    ordinary_state-Concerns initializing = search (only_rules, claim-Concerns)
    ordinary_state-Concerns created = search (only_rules, claim-Concerns)
    ordinary_state-Concerns running = running-Concerns
    ordinary_state-Concerns completed = completed-Concerns
    ordinary_state-Concerns (other_state _) = search only_rules

    -- The evacuating processor.
    evacuation_state-Concerns :
        (state : ContainerState) (ttl : ℕ)
        → Only (Concerns l.container.guid inst) (Evacuation.process_state env state ttl l)
    unfolding Evacuation.process_state Evacuation.evacuate_claimed_lrp_container
        Evacuation.process_running_container Evacuation.process_completed_container
        Evacuation.report_completed
    evacuation_state-Concerns reserved ttl = search delegate_rules depth 9
    evacuation_state-Concerns _ ttl = search delegate_rules depth 9

  instance_of_key :
      (container : Container) (cell_id : String) (key : ActualLrpInstanceKey)
      → actual_lrp_instance_key_from_container env.lib container cell_id ≡ ok key
      → key.instance_guid ≡ tag container.tags instance_guid_tag
  unfolding actual_lrp_instance_key_from_container tag
  instance_of_key container cell_id key h = ground arith

  ordinary-Concerns :
      (cell_id : String) (container : Container)
      → Only
          (Concerns container.guid (tag container.tags instance_guid_tag))
          (Ordinary.process env cell_id container)
  unfolding Ordinary.process
  ordinary-Concerns cell_id container =
      Only-on_result _ _ _
        (λ key _.
          Only-on_result _ _ _
            (λ instance_key e.
              ordinary_state-Concerns
                (record { key = key; instance_key = instance_key; container = container }) _
                (instance_of_key container cell_id instance_key e) container.state)
            (λ _ _. Only-pure tt))
        (λ _ _. Only-pure tt)

  evacuation-Concerns :
      (cell_id : String) (ttl : ℕ) (container : Container)
      → Only
          (Concerns container.guid (tag container.tags instance_guid_tag))
          (Evacuation.process env cell_id ttl container)
  unfolding Evacuation.process
  evacuation-Concerns cell_id ttl container =
      Only-on_result _ _ _
        (λ key _.
          Only-on_result _ _ _
            (λ instance_key e.
              evacuation_state-Concerns
                (record { key = key; instance_key = instance_key; container = container }) _
                (instance_of_key container cell_id instance_key e) container.state ttl)
            (λ _ _. Only-pure tt))
        (λ _ _. Only-pure tt)

  -- Processing the container of an LRP, evacuating or not and in whatever state, calls the executor
  -- about that container alone, and the BBS about the LRP instance of its tags alone.
  pub process_lrp-Concerns :
      (cell_id : String) (ttl : ℕ) (container : Container)
      → Only
          (Concerns container.guid (tag container.tags instance_guid_tag))
          (process_lrp env cell_id ttl container)
  unfolding process_lrp
  process_lrp-Concerns cell_id ttl container =
      search (only_rules, ordinary-Concerns, evacuation-Concerns) depth 9
