-- ===== src/Client/Served.antt =====
-- The client's methods over the handlers of a rep.
use rep.Base.{ℕ, Bool, true, false, ◌≡◌, refl, ◌≢◌, ◌↔◌, Option, some, arith}
use rep.Base.Result.{Result, ok, err}
use rep.Cell.{ActualLrpKey, CellState, Work}
use rep.Models.{ActualLrpInstanceKey}
use rep.Services.{ExecutorError, Env, World, M, pure, ◌>>=◌, stop_container}
use rep.AuctionRep.{AuctionCellRep, reset}
use rep.AuctionRep.State.{state}
use rep.AuctionRep.Perform.{perform}
use rep.Handlers.{
  Status, status_ok, status_accepted, status_bad_request, status_internal_server_error,
  status_service_unavailable, stop_lrp_instance, cancel_task, serve_state, serve_perform,
  serve_reset,
}
use rep.Handlers.Stop.{stop_lrp_instance_iff}
use rep.Handlers.Reported.{answer_to, serve_state_answer}
use rep.Client.Requests.{
  Request, get_state, post_work, stop_instance, cancel, sim_reset, Response, ClientError, Http,
  received, decoded, send_created, post_encoded, requested, client_state, client_perform,
  client_stop_lrp_instance, stop_params,
}

-- The codes of net/http.
abbrev pub code_of : Status → ℕ
code_of status_ok = 200
code_of status_accepted = 202
code_of status_bad_request = 400
code_of status_internal_server_error = 500
code_of status_service_unavailable = 503

-- What the rep writes of a state and of failed work, and reads as work (encoding/json).
pub record Json (Body : Type 0) : Type 0 where
  pub state_body : Option CellState → Body
  pub work_body : Option Work → Body
  pub no_body : Body
  pub read_work : Body → Option Work

-- The response of the rep to a request: the handler of its route, with the parameters of the route.
abbrev pub respond :
    {S Body : Type 0} → Json Body → Env S → AuctionCellRep → Request Body → M S (Response Body)
respond json env a get_state = serve_state env a >>= λ (status, s).
    pure (record { status_code = code_of status; body = json.state_body s })
respond json env a (post_work body) =
    serve_perform env a (json.read_work body) >>= λ (status, work).
    pure (record { status_code = code_of status; body = json.work_body work })
respond json env a (stop_instance process_guid instance_guid index) =
    stop_lrp_instance env process_guid instance_guid >>= λ status.
    pure (record { status_code = code_of status; body = json.no_body })
respond json env a (cancel task_guid) = cancel_task env task_guid >>= λ status.
    pure (record { status_code = code_of status; body = json.no_body })
respond json env a sim_reset =
    pure (record { status_code = code_of (serve_reset reset); body = json.no_body })

-- The client's requests reach the rep: each can be made, and sending it brings the rep's response; and
-- the client reads what the rep writes, and writes what the rep reads.
pub record Delivers {S Prepared Body : Type 0} (http : Http S Prepared Body) (json : Json Body)
    (env : Env S) (a : AuctionCellRep) : Type 0 where
  pub made :
      (r : Request Body)
      → (m : Prepared) × (http.create_request r ≡ some m)
        × ((w : World S)
            → http.send m w ≡ (some (respond json env a r w).0, (respond json env a r w).1))
        × ((w : World S)
            → http.send_state m w ≡ (some (respond json env a r w).0, (respond json env a r w).1))
  pub state_read : (s : CellState) → http.decode_state (json.state_body (some s)) ≡ some s
  pub work_read : (work : Work) → http.decode_work (json.work_body (some work)) ≡ some work
  pub work_sent :
      (work : Work) → (m : Body) × (http.encode_work work ≡ some m) × (json.read_work m ≡ some work)

module _ {S Prepared Body : Type 0} (http : Http S Prepared Body) (json : Json Body) (env : Env S)
    (a : AuctionCellRep) (d : Delivers http json env a) where
  requested-respond :
      {A : Type 0} (r : Request Body) (expected : ℕ) (read : Body → Result ClientError A)
      (w : World S)
      → requested http http.send r expected read w
        ≡ (received expected read (some (respond json env a r w).0), (respond json env a r w).1)
  unfolding requested send_created
  requested-respond r expected read w =
      let (m, made, sent, state_sent) = d.made r in rw (made, sent w) refl

  requested_state-respond :
      {A : Type 0} (r : Request Body) (expected : ℕ) (read : Body → Result ClientError A)
      (w : World S)
      → requested http http.send_state r expected read w
        ≡ (received expected read (some (respond json env a r w).0), (respond json env a r w).1)
  unfolding requested send_created
  requested_state-respond r expected read w =
      let (m, made, sent, state_sent) = d.made r in rw (made, state_sent w) refl

  state_of_answer :
      (s : CellState) (r : Result ExecutorError (CellState × Bool))
      → (received 200
            (λ body. decoded (http.decode_state body))
            (some (record {
              status_code = code_of (answer_to r).0;
              body = json.state_body (answer_to r).1;
            }))
          ≡ ok s)
        ↔ (r ≡ ok (s, true))
  unfolding received decoded
  state_of_answer s (ok (t, true)) =
      (λ h. ground (arith, d.state_read t), λ h. ground (arith, d.state_read t))
  state_of_answer s (ok (t, false)) = (λ h. ground arith, λ h. ground arith)
  state_of_answer s (err e) = (λ h. ground arith, λ h. ground arith)

  -- If the requests of the client reach the rep and are answered by it, the client's State returns a
  -- state exactly when State of the rep returns that state and the cell is healthy.
  pub client_state_iff :
      (w : World S) (s : CellState)
      → ((client_state http w).0 ≡ ok s) ↔ ((state env a w).0 ≡ ok (s, true))
  unfolding client_state
  client_state_iff w s =
      rw (requested_state-respond get_state 200 (λ body. decoded (http.decode_state body)) w)
        (rw ((serve_state_answer env a w).0) (state_of_answer s (state env a w).0))

  -- If the requests of the client reach the rep and are answered by it, the client's Perform returns what
  -- Perform of the rep returns.
  pub client_perform_served :
      (work : Work) (w : World S) → (client_perform http work w).0 ≡ ok (perform env a work w).0
  unfolding client_perform post_encoded received decoded serve_perform
  client_perform_served work w =
      let (m, encoded, read) = d.work_sent work in
      rw
        (
          encoded,
          requested-respond (post_work m) 200 (λ failed. decoded (http.decode_work failed)) w,
          read,
        )
        (ground (arith, d.work_read (perform env a work w).0))

  accepted_iff :
      (status : Status)
      → (received 202
            (λ _. ok tt)
            (some (record { status_code = code_of status; body = json.no_body }))
          ≡ ok tt)
        ↔ (status ≡ status_accepted)
  unfolding received
  accepted_iff status_ok = (λ h. ground arith, λ h. ground arith)
  accepted_iff status_accepted = (λ h. refl, λ h. refl)
  accepted_iff status_bad_request = (λ h. ground arith, λ h. ground arith)
  accepted_iff status_internal_server_error = (λ h. ground arith, λ h. ground arith)
  accepted_iff status_service_unavailable = (λ h. ground arith, λ h. ground arith)

  -- If the requests of the client reach the rep and are answered by it, its StopLRPInstance succeeds
  -- exactly when the key has both guids and the executor of the
  -- rep stops the container of the instance.
  pub client_stop_lrp_instance_iff :
      (key : ActualLrpKey) (instance_key : ActualLrpInstanceKey) (w : World S)
      → ((client_stop_lrp_instance http key instance_key w).0 ≡ ok tt) ↔ (
          (key.process_guid ≢ "")
          × (instance_key.instance_guid ≢ "")
          × ((env.answer (stop_container instance_key.instance_guid) w.outside).0 ≡ ok tt))
  unfolding client_stop_lrp_instance stop_params
  client_stop_lrp_instance_iff key instance_key w =
      rw (requested-respond (stop_params http key instance_key) 202 (λ _. ok tt) w) (
        let status = (stop_lrp_instance env key.process_guid instance_key.instance_guid w).0 in
        let stopped = stop_lrp_instance_iff env key.process_guid instance_key.instance_guid w in
        (λ h. stopped.0 ((accepted_iff status).0 h), λ h. (accepted_iff status).1 (stopped.1 h)))
