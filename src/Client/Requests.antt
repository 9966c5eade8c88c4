-- ===== src/Client/Requests.antt =====
-- client.go: the requests of a client, their statuses and errors. rata's request generator, net/http's
-- clients and the JSON codec are parameters. Logging is left out.
use rep.Base.{ℕ, String, Option, none, some}
use rep.Base.Tests.{if◌then◌else◌, eqb}
use rep.Base.Int.{ℤ}
use rep.Base.Result.{Result, ok, err}
use rep.Cell.{ActualLrpKey, CellState, Work}
use rep.Models.{ActualLrpInstanceKey}
use rep.Services.{M, pure, ◌>>=◌}

-- The requests that a client makes: the route, its parameters and the body.
pub data Request (Body : Type 0) : Type 0 where
  get_state : Request Body
  post_work : Body → Request Body
  stop_instance : String → String → String → Request Body
  cancel : String → Request Body
  sim_reset : Request Body

pub record Response (Body : Type 0) : Type 0 where
  pub status_code : ℕ
  pub body : Body

pub data ClientError : Type 0 where
  not_created not_sent not_decoded not_encoded : ClientError
  unexpected_status : ℕ → ClientError

-- rata.RequestGenerator, the two http.Clients (`send_state` is that for the state) and encoding/json;
-- `Prepared` is *http.Request, and `Body` what a
-- request or a response carries.
pub record Http (S Prepared Body : Type 0) : Type 0 where
  pub create_request : Request Body → Option Prepared
  pub send : Prepared → M S (Option (Response Body))
  pub send_state : Prepared → M S (Option (Response Body))
  pub encode_work : Work → Option Body
  pub decode_work : Body → Option Work
  pub decode_state : Body → Option CellState
  pub itoa : ℤ → String

abbrev pub status_code_ok : ℕ
status_code_ok = 200

abbrev pub status_code_accepted : ℕ
status_code_accepted = 202

unfoldable pub stop_params :
    {S Prepared Body : Type 0}
    → Http S Prepared Body
    → ActualLrpKey
    → ActualLrpInstanceKey
    → Request Body
stop_params http key instance_key =
    stop_instance key.process_guid instance_key.instance_guid (http.itoa key.index)

-- The end of a request, once `http.Client.Do` has returned.
unfoldable pub received :
    {A Body : Type 0}
    → ℕ
    → (Body → Result ClientError A)
    → Option (Response Body)
    → Result ClientError A
received expected read none = err not_sent
received expected read (some response) =
    if eqb response.status_code expected
    then read response.body
    else err (unexpected_status response.status_code)

unfoldable pub decoded : {A : Type 0} → Option A → Result ClientError A
decoded none = err not_decoded
decoded (some a) = ok a

module _ {S Prepared Body : Type 0} (http : Http S Prepared Body) where
  -- Do, and then what the method makes of the response.
  unfoldable pub send_created :
      {A : Type 0}
      → (Prepared → M S (Option (Response Body)))
      → ℕ
      → (Body → Result ClientError A)
      → Option Prepared
      → M S (Result ClientError A)
  unfolding received
  send_created send expected read none = pure (err not_created)
  send_created send expected read (some req) =
      send req >>= λ resp. pure (received expected read resp)

  -- CreateRequest, and then Do.
  unfoldable pub requested :
      {A : Type 0}
      → (Prepared → M S (Option (Response Body)))
      → Request Body
      → ℕ
      → (Body → Result ClientError A)
      → M S (Result ClientError A)
  unfolding send_created
  requested send request expected read =
      send_created send expected read (http.create_request request)

  unfoldable pub client_state : M S (Result ClientError CellState)
  unfolding requested decoded
  client_state =
      requested http.send_state get_state status_code_ok (λ body. decoded (http.decode_state body))

  -- Perform, from the encoded work on.
  unfoldable pub post_encoded : Option Body → M S (Result ClientError Work)
  unfolding requested decoded
  post_encoded none = pure (err not_encoded)
  post_encoded (some body) =
      requested http.send (post_work body) status_code_ok
        (λ failed. decoded (http.decode_work failed))

  unfoldable pub client_perform : Work → M S (Result ClientError Work)
  unfolding post_encoded
  client_perform work = post_encoded (http.encode_work work)

  unfoldable pub client_reset : M S (Result ClientError (Unit {0}))
  unfolding requested
  client_reset = requested http.send sim_reset status_code_ok (λ _. ok tt)

  unfoldable pub client_stop_lrp_instance :
      ActualLrpKey → ActualLrpInstanceKey → M S (Result ClientError (Unit {0}))
  unfolding requested stop_params
  client_stop_lrp_instance key instance_key =
      requested http.send (stop_params http key instance_key) status_code_accepted (λ _. ok tt)

  unfoldable pub client_cancel_task : String → M S (Result ClientError (Unit {0}))
  unfolding requested
  client_cancel_task task_guid =
      requested http.send (cancel task_guid) status_code_accepted (λ _. ok tt)
