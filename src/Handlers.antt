-- ===== src/Handlers.antt =====
-- handlers/stop_lrp_handler.go, cancel_task_handler.go, state_handler.go, perform_handler.go,
-- evacuation_handler.go, reset_handler.go and ping_handler.go: the HTTP status that each handler
-- answers with, and the calls that it makes. Logging, and the JSON forms of requests and replies, are left out.
pub mod Stop
pub mod Reported
pub mod Evacuating
use rep.Base.{ℕ, String, ◌==◌, Bool, true, false, List, [], ◌∷◌, Option, none, some}
use rep.Base.Tests.{if◌then◌else◌}
use rep.Base.Result.{Result, ok, err}
use rep.Cell.{Work, CellState}
use rep.Services.{
  ExecutorError, Env, M, pure, ask, on_result, ◌>>=◌, ◌>>◌, stop_container, delete_container,
  evacuate,
}
use rep.Conversion.Tags.{lrp_container_guid}
use rep.AuctionRep.{AuctionCellRep, ResetError}
use rep.Models.{Message}
use rep.AuctionRep.Perform.{perform}
use rep.AuctionRep.State.{state}

-- The constants of net/http.
pub data Status : Type 0 where
  status_ok status_accepted status_bad_request status_internal_server_error : Status
  status_service_unavailable : Status

-- The end of the evacuation handler.
unfoldable pub evacuation_answer : Option Message → Status × Option Message
evacuation_answer none = (status_internal_server_error, none)
evacuation_answer (some payload) = (status_accepted, some payload)

-- The end of perform.ServeHTTP, of what Perform returns.
abbrev pub perform_answer : {E : Type 0} → Result E Work → Status × Option Work
perform_answer (ok failed_work) = (status_ok, some failed_work)
perform_answer (err _) = (status_internal_server_error, none)

module _ {S : Type 0} (env : Env S) where
  -- StopLRPInstanceHandler.ServeHTTP, of the two values of the form.
  unfoldable pub stop_lrp_instance : String → String → M S Status
  stop_lrp_instance process_guid instance_guid =
      if process_guid == ""
      then pure status_bad_request
      else if instance_guid == ""
      then pure status_bad_request
      else (ask env (stop_container (lrp_container_guid process_guid instance_guid)) >>= λ stopped.
          on_result stopped (λ _. pure status_accepted) (λ _. pure status_internal_server_error))

  -- CancelTaskHandler.ServeHTTP, with the goroutine that it starts; the errors are logged.
  unfoldable pub cancel_task : String → M S Status
  cancel_task task_guid = do ask env (delete_container task_guid); pure status_accepted

  -- state.ServeHTTP: the status, and the state that is encoded, if any.
  unfoldable pub serve_state : AuctionCellRep → M S (Status × Option CellState)
  serve_state a = state env a >>= λ found.
      on_result found
        (λ (s, is_healthy).
          pure (if is_healthy then status_ok else status_service_unavailable, some s))
        (λ _. pure (status_internal_server_error, none))

  -- perform.ServeHTTP, of the decoded body, if it can be decoded. The error of this rep's Perform is nil.
  unfoldable pub serve_perform : AuctionCellRep → Option Work → M S (Status × Option Work)
  serve_perform a none = pure (status_bad_request, none)
  serve_perform a (some work) = do
    failed_work ← perform env a work
    pure (perform_answer {E = Unit} (ok failed_work))

  -- EvacuationHandler.ServeHTTP, of what json.Marshal returns for the payload.
  unfoldable pub serve_evacuation : Option Message → M S (Status × Option Message)
  serve_evacuation marshalled = do ask env evacuate; pure (evacuation_answer marshalled)

-- reset.ServeHTTP, of what Reset returns; a status that is not written is 200.
unfoldable pub serve_reset : Result ResetError (Unit {0}) → Status
serve_reset (ok _) = status_ok
serve_reset (err _) = status_internal_server_error

-- PingHandler.ServeHTTP.
abbrev pub ping : Status
ping = status_ok
