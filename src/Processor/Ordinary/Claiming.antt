-- ===== src/Processor/Ordinary/Claiming.antt =====
-- The calls for a reserved container (processReservedContainer of lrp_processors.go), on every branch.
use rep.Base.{◌≡◌, refl, ◌∙◌, ap, inl, inr, List, ◌∷◌, subst, sym, arith}
use rep.Base.Tests.{if◌then◌else◌}
use rep.Base.Result.{ok, err, Result-cases}
use rep.Models.{DesiredLrp, RunRequest}
use rep.Conversion.Runs.{new_run_request_from_desired_lrp}
use rep.Conversion.Requests.{Runnable, Runs, Runnable-made, new_run_request_from_desired_lrp-Runs}
use rep.Services.{
  Call, BbsError, actual_lrp_cannot_be_claimed, actual_lrp_cannot_be_started,
  invalid_state_transition, resource_not_found, other_bbs_error, Env, World, run_container,
  delete_container, desired_lrp_by_process_guid,
}
use rep.Processor.Ordinary.{
  LrpContainer, cannot_be_claimed, claim_lrp_container, run_claimed, process_reserved_container,
}
use rep.Processor.Ordinary.Reports.{
  claim, after_run, after_refusal, process_reserved_container_refused,
  process_reserved_container_claimed,
}

-- The calls for a reserved container from the state `s` of the outside world, the latest first, in front of
-- the earlier ones. A refused claim is not followed by a run. Once the claim is granted, the desired LRP is
-- looked up; if there is one, and only if it is one that can be run, a request for it is run, and on an
-- error of the executor the container is deleted and the LRP removed.
pub data Claims {S : Type 0} (env : Env S) (l : LrpContainer) (s : S) (before : List Call)
    : List Call → Type 0 where
  refused :
      (e : BbsError)
      → (env.answer (claim l) s).0 ≡ err e
      → Claims env l s before (after_refusal l e (claim l ∷ before))
  unknown :
      (e : BbsError)
      → (env.answer (claim l) s).0 ≡ ok tt
      → (env.answer (desired_lrp_by_process_guid l.key.process_guid) (env.answer (claim l) s).1).0
        ≡ err e
      → Claims env l s before (desired_lrp_by_process_guid l.key.process_guid ∷ claim l ∷ before)
  unrunnable :
      (desired : DesiredLrp)
      → (env.answer (claim l) s).0 ≡ ok tt
      → (env.answer (desired_lrp_by_process_guid l.key.process_guid) (env.answer (claim l) s).1).0
        ≡ ok desired
      → ¬ Runnable env.lib desired
      → Claims env l s before (desired_lrp_by_process_guid l.key.process_guid ∷ claim l ∷ before)
  runs :
      (desired : DesiredLrp) (req : RunRequest)
      → (env.answer (claim l) s).0 ≡ ok tt
      → (env.answer (desired_lrp_by_process_guid l.key.process_guid) (env.answer (claim l) s).1).0
        ≡ ok desired
      → Runs env.lib l.container.guid desired l.key l.instance_key req
      → Claims env l s before (
          after_run l l.container.guid
            (env.answer
              (run_container req)
              (env.answer
                (desired_lrp_by_process_guid l.key.process_guid)
                (env.answer (claim l) s).1).1).0
            (run_container req ∷ desired_lrp_by_process_guid l.key.process_guid ∷ claim l ∷ before))

pair_path : {A B : Type 0} {p : A × B} {a : A} → p.0 ≡ a → p ≡ (a, p.1)
pair_path {p = p} h = ap (λ x. (x, p.1)) h

after_refusal_lem :
    (l : LrpContainer) (e : BbsError) (calls : List Call)
    → (if cannot_be_claimed e then delete_container l.container.guid ∷ calls else calls)
      ≡ after_refusal l e calls
unfolding cannot_be_claimed
after_refusal_lem l actual_lrp_cannot_be_claimed calls = refl
after_refusal_lem l actual_lrp_cannot_be_started calls = refl
after_refusal_lem l invalid_state_transition calls = refl
after_refusal_lem l resource_not_found calls = refl
after_refusal_lem l (other_bbs_error message) calls = refl

module _ {S : Type 0} (env : Env S) (l : LrpContainer) (w : World S)
    (claimed : (env.answer (claim l) w.outside).0 ≡ ok tt) where
  abbrev after : S
  after = (env.answer (claim l) w.outside).1

  not_found_calls :
      (e : BbsError)
      → (env.answer (desired_lrp_by_process_guid l.key.process_guid) after).0 ≡ err e
      → (process_reserved_container env l w).1.calls
        ≡ desired_lrp_by_process_guid l.key.process_guid ∷ claim l ∷ w.calls
  unfolding process_reserved_container claim_lrp_container run_claimed
  not_found_calls e h = rw (claimed, h) refl

  unrunnable_calls :
      (desired : DesiredLrp)
      → (env.answer (desired_lrp_by_process_guid l.key.process_guid) after).0 ≡ ok desired
      → ¬ (
          (req : RunRequest) × (new_run_request_from_desired_lrp env.lib l.container.guid desired
              l.key l.instance_key
            ≡ ok req))
      → (process_reserved_container env l w).1.calls
        ≡ desired_lrp_by_process_guid l.key.process_guid ∷ claim l ∷ w.calls
  unfolding process_reserved_container claim_lrp_container run_claimed
  unrunnable_calls desired found none_made =
      elim (Result-cases
        (new_run_request_from_desired_lrp env.lib l.container.guid desired l.key l.instance_key)) [
          | inl made ↦ absurd (none_made made)
          | inr (e, failed) ↦ rw (claimed, found, failed) refl
        ]

  claimed-Claims : Claims env l w.outside w.calls (process_reserved_container env l w).1.calls
  claimed-Claims =
      elim (Result-cases (env.answer (desired_lrp_by_process_guid l.key.process_guid) after).0) [
        | inr (e, missing) ↦
            subst (Claims env l w.outside w.calls) (sym (not_found_calls e missing))
              (unknown e claimed missing)
        | inl (desired, found) ↦
            elim (Result-cases (
              new_run_request_from_desired_lrp env.lib l.container.guid desired l.key
                l.instance_key)) [
                  | inl (req, made) ↦
                      let r =
                        new_run_request_from_desired_lrp-Runs env.lib l.container.guid desired l.key
                          l.instance_key req made in
                      subst (Claims env l w.outside w.calls)
                        (ap
                            (λ g.
                              after_run l g
                                (env.answer (run_container req)
                                  (env.answer (desired_lrp_by_process_guid l.key.process_guid)
                                    after).1).0
                                (run_container req
                                  ∷ desired_lrp_by_process_guid l.key.process_guid
                                  ∷ claim l
                                  ∷ w.calls))
                            (sym r.guid_kept)
                          ∙ sym (
                              process_reserved_container_claimed env l w _ _ desired req
                                (pair_path claimed) (pair_path found) made))
                        (runs desired req claimed found r)
                  | inr (e, failed) ↦
                      let impossible : ¬ Runnable env.lib desired = λ r.
                        let (req, made) =
                          Runnable-made env.lib l.container.guid desired l.key l.instance_key r in
                        ground (arith, made, failed) in
                      subst (Claims env l w.outside w.calls)
                        (sym (
                          unrunnable_calls desired found
                            (λ (req, made). ground (arith, made, failed))))
                        (unrunnable desired claimed found impossible)
                ]
      ]

-- The calls for a reserved container are as Claims says.
pub process_reserved_container-Claims :
    {S : Type 0} (env : Env S) (l : LrpContainer) (w : World S)
    → Claims env l w.outside w.calls (process_reserved_container env l w).1.calls
process_reserved_container-Claims env l w = elim (Result-cases (env.answer (claim l) w.outside).0) [
  | inr (e, h) ↦
      subst (Claims env l w.outside w.calls)
        (sym (
          process_reserved_container_refused env l w e h
          ∙ after_refusal_lem l e (claim l ∷ w.calls)))
        (refused e h)
  | inl (u, h) ↦ claimed-Claims env l w h
]
