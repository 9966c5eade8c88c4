-- ===== src/Handlers/Reported.antt =====
-- What the state handler answers.
use rep.Base.{◌≡◌, Bool, true, false, Option, none, some, arith}
use rep.Base.Result.{Result, ok, err}
use rep.Cell.{CellState}
use rep.Services.{ExecutorError, Env, World}
use rep.AuctionRep.{AuctionCellRep}
use rep.AuctionRep.State.{state}
use rep.Handlers.{
  Status, status_ok, status_service_unavailable, status_internal_server_error, serve_state,
}

-- The status and the body, by what State returns.
abbrev pub answer_to : Result ExecutorError (CellState × Bool) → Status × Option CellState
answer_to (ok (s, true)) = (status_ok, some s)
answer_to (ok (s, false)) = (status_service_unavailable, some s)
answer_to (err _) = (status_internal_server_error, none)

-- The state handler answers 200 with the state of a healthy cell, 503 with the state of one that is not
-- healthy, and 500 without a state where State fails; it makes no call beyond those of State.
pub serve_state_answer :
    {S : Type 0} (env : Env S) (a : AuctionCellRep) (w : World S)
    → ((serve_state env a w).0 ≡ answer_to (state env a w).0)
      × ((serve_state env a w).1.calls ≡ (state env a w).1.calls)
unfolding serve_state
serve_state_answer env a w = ground arith
