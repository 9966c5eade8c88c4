-- ===== src/Evacuator/Outcomes.antt =====
-- What an outcome of the evacuator tells.
use rep.Base.{◌≡◌, arith}
use rep.Base.Int.{ℤ}
use rep.Services.{Env, World}
use rep.Evacuator.Loop.{IsEvacuated}
use rep.Evacuator.{
  is_empty, all_containers_evacuated, complete, returned, done, checking, checked, Evacuator, ready,
  Step, signal_first, notify, check, wake, finish, time_out, signal, elsewhere, Steps, stay,
  then_step,
}

module _ {S : Type 0} (env : Env S) (polling_interval : ℤ) (w : World S) where
  -- On the way to `e` the loop has made a check at which the executor answered that there is no container.
  pub record FoundEmpty (e : Evacuator S) : Type 0 where
    pub at : Evacuator S
    pub before : Steps env polling_interval (ready w) at
    pub checks : at.poller ≡ checking
    pub empty : IsEvacuated env at.world
    pub after : Steps env polling_interval at e

  then-FoundEmpty :
      {e f : Evacuator S} → FoundEmpty e → Step env polling_interval e f → FoundEmpty f
  then-FoundEmpty found step = record {
    at = found.at;
    before = found.before;
    checks = found.checks;
    empty = found.empty;
    after = then_step found.after step;
  }

  record IsTruthful (e : Evacuator S) : Type 0 where
    poller : e.poller ≡ done → FoundEmpty e
    outcome : e.phase ≡ returned complete → FoundEmpty e

  checked-IsEvacuated :
      (v : World S) → checked (all_containers_evacuated env v).0 ≡ done → IsEvacuated env v
  unfolding all_containers_evacuated is_empty
  checked-IsEvacuated v h = ground arith

  Step-IsTruthful :
      {e f : Evacuator S}
      → Steps env polling_interval (ready w) e
      → IsTruthful e
      → Step env polling_interval e f
      → IsTruthful f
  Step-IsTruthful before t (signal_first p) = record {
    poller = λ h. then-FoundEmpty (t.poller h) (signal_first p);
    outcome = λ h. cc;
  }
  Step-IsTruthful before t (notify p) = record { poller = λ h. cc; outcome = λ h. cc }
  Step-IsTruthful {e = e} before t (check p) = record {
    poller = λ h. record {
      at = e;
      before = before;
      checks = p;
      empty = checked-IsEvacuated e.world h;
      after = then_step stay (check p);
    };
    outcome = λ h. then-FoundEmpty (t.outcome h) (check p);
  }
  Step-IsTruthful before t (wake p) = record {
    poller = λ h. cc;
    outcome = λ h. then-FoundEmpty (t.outcome h) (wake p);
  }
  Step-IsTruthful before t (finish p d) = record {
    poller = λ h. then-FoundEmpty (t.poller h) (finish p d);
    outcome = λ h. then-FoundEmpty (t.poller d) (finish p d);
  }
  Step-IsTruthful before t (time_out p) = record {
    poller = λ h. then-FoundEmpty (t.poller h) (time_out p);
    outcome = λ h. cc;
  }
  Step-IsTruthful before t (signal p) = record {
    poller = λ h. then-FoundEmpty (t.poller h) (signal p);
    outcome = λ h. cc;
  }
  Step-IsTruthful before t (elsewhere s) = record {
    poller = λ h. then-FoundEmpty (t.poller h) (elsewhere s);
    outcome = λ h. then-FoundEmpty (t.outcome h) (elsewhere s);
  }

  Steps-IsTruthful : {e : Evacuator S} → Steps env polling_interval (ready w) e → IsTruthful e
  Steps-IsTruthful stay = record { poller = λ h. cc; outcome = λ h. cc }
  Steps-IsTruthful (then_step steps step) = Step-IsTruthful steps (Steps-IsTruthful steps) step

  -- However Run and its loop interleave with each other and with changes of the world, Run returns that
  -- the evacuation is complete only if on the way there the loop has made a check at which the executor
  -- answered that no container is left.
  pub Steps-FoundEmpty :
      {e : Evacuator S}
      → Steps env polling_interval (ready w) e
      → e.phase ≡ returned complete
      → FoundEmpty e
  Steps-FoundEmpty steps = (Steps-IsTruthful steps).outcome
