-- ===== src/Evacuator/Loop.antt =====
-- When the loop of the evacuator ends.
use rep.Base.{ℕ, ◌<◌, ◌≡◌, refl, ◌↔◌, true, [], arith}
use rep.Base.Int.{ℤ}
use rep.Base.Result.{ok}
use rep.Services.{Env, World, ask, list_containers, await_timer}
use rep.Services.Polling.{in_round, poll-holds, poll-ends}
use rep.Evacuator.{is_empty, all_containers_evacuated, evacuate_all}

-- The world of the check of round `k`, if no check before it has found the cell empty.
abbrev pub at_check : {S : Type 0} → Env S → ℤ → ℕ → World S → World S
at_check env polling_interval =
    in_round (all_containers_evacuated env) (ask env (await_timer polling_interval))

-- The executor answers that the cell holds no container.
abbrev pub IsEvacuated : {S : Type 0} → Env S → World S → Type 0
IsEvacuated env w = (env.answer list_containers w.outside).0 ≡ ok []

all_containers_evacuated_iff :
    {S : Type 0} (env : Env S) (w : World S)
    → ((all_containers_evacuated env w).0 ≡ true) ↔ IsEvacuated env w
unfolding all_containers_evacuated is_empty
all_containers_evacuated_iff env w = (λ h. ground arith, λ h. rw h refl)

-- The loop of evacuate, run for at most `fuel` rounds, ends exactly if the check of some round within the
-- fuel finds no container, where a check that fails finds some: it ends as soon as the cell is found
-- empty, and not before.
pub evacuate_all-ends :
    {S : Type 0} (env : Env S) (polling_interval : ℤ) (w : World S) (fuel : ℕ)
    → ((evacuate_all env polling_interval fuel w).0 ≡ true)
      ↔ ((k : ℕ) × (k < fuel) × IsEvacuated env (at_check env polling_interval k w))
unfolding evacuate_all
evacuate_all-ends env polling_interval w fuel =
    let test = all_containers_evacuated env in
    let wait = ask env (await_timer polling_interval) in
    (
      λ h.
          let (k, lt, holds) = poll-holds test wait fuel w h in
          (k, lt, (all_containers_evacuated_iff env _).0 holds),
      λ (k, lt, h). (poll-ends test wait k w ((all_containers_evacuated_iff env _).1 h) fuel lt).0,
    )
