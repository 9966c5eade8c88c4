-- ===== src/Routes.antt =====
-- routes.go and handlers/handlers.go: the routes of the rep's two servers and the handlers under their
-- names; and the choice between them in cmd/rep/main.go. Logging is left out.
pub mod Served
use rep.Base.{String, Bool, true, false, ◌&&◌, not, List, [], ◌∷◌, ◌++◌}
use rep.Base.Tests.{if◌then◌else◌}
use rep.Base.GoMap.{GoMap, put}

-- rata.Route
pub record Route : Type 0 where
  pub path : String
  pub method : String
  pub name : String

abbrev pub state_route : String
state_route = "STATE"

abbrev pub perform_route : String
perform_route = "PERFORM"

abbrev pub stop_lrp_instance_route : String
stop_lrp_instance_route = "StopLRPInstance"

abbrev pub cancel_task_route : String
cancel_task_route = "CancelTask"

abbrev pub sim_reset_route : String
sim_reset_route = "RESET"

abbrev pub ping_route : String
ping_route = "Ping"

abbrev pub evacuate_route : String
evacuate_route = "Evacuate"

abbrev route : String → String → String → Route
route path method name = record { path = path; method = method; name = name }

abbrev stop_path : String
stop_path = "/v1/lrps/:process_guid/instances/:instance_guid/stop"

-- The two appends of NewRoutes.
unfoldable pub new_routes : Bool → List Route
new_routes secure =
    (if secure
      then route "/state" "GET" state_route
        ∷ route "/work" "POST" perform_route
        ∷ route stop_path "POST" stop_lrp_instance_route
        ∷ route "/v1/tasks/:task_guid/cancel" "POST" cancel_task_route
        ∷ route "/sim/reset" "POST" sim_reset_route
        ∷ []
      else [])
    ++ (if not secure
        then route "/ping" "GET" ping_route ∷ route "/evacuate" "POST" evacuate_route ∷ []
        else [])

-- Routes
unfoldable pub all_routes : List Route
unfolding new_routes
all_routes = new_routes false ++ new_routes true

-- The handlers, by their types.
pub data Handler : Type 0 where
  state_handler perform_handler reset_handler stop_lrp_handler cancel_task_handler : Handler
  ping_handler evacuation_handler : Handler

-- handlers.New
unfoldable pub new_handlers : Bool → GoMap Handler
new_handlers true = put cancel_task_route cancel_task_handler (
    put stop_lrp_instance_route stop_lrp_handler (
      put sim_reset_route reset_handler
        (put perform_route perform_handler (put state_route state_handler []))))
new_handlers false = put evacuate_route evacuation_handler (put ping_route ping_handler [])

-- for name, handler := range secureHandlers { insecureHandlers[name] = handler }
unfoldable pub add_handlers : GoMap Handler → GoMap Handler → GoMap Handler
add_handlers insecure [] = insecure
add_handlers insecure ((name, handler) ∷ more) = add_handlers (put name handler insecure) more

-- handlers.NewLegacy
unfoldable pub new_legacy : GoMap Handler
unfolding new_handlers add_handlers
new_legacy = add_handlers (new_handlers false) (new_handlers true)

unfoldable pub get_handlers : Bool → Bool → GoMap Handler
unfolding new_handlers new_legacy
get_handlers enable_legacy_api_server is_secure_server =
    if enable_legacy_api_server && not is_secure_server
    then new_legacy
    else new_handlers is_secure_server

unfoldable pub get_routes : Bool → Bool → List Route
unfolding new_routes all_routes
get_routes enable_legacy_api_server is_secure_server =
    if enable_legacy_api_server && not is_secure_server
    then all_routes
    else new_routes is_secure_server
