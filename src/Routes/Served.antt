-- ===== src/Routes/Served.antt =====
-- The routes of a server against its handlers.
use rep.Base.{◌==◌, Bool, true, false, ◌≡◌, refl, List, map, Option, none, some, Memᴰ}
use rep.Base.Tests.{if◌then◌else◌}
use rep.Base.Slices.{All}
use rep.Base.GoMap.{GoMap, lookup, put}
use rep.Routes.{
  Route, Handler, state_handler, perform_handler, reset_handler, stop_lrp_handler,
  cancel_task_handler, ping_handler, evacuation_handler, get_handlers, get_routes,
}

-- The API of the rep: the handler that a method and a path ask for.
abbrev pub handler_for : Route → Option Handler
handler_for r =
    if r.method == "GET"
    then (if r.path == "/state"
        then some state_handler
        else if r.path == "/ping"
        then some ping_handler
        else none)
    else if r.path == "/work"
    then some perform_handler
    else if r.path == "/v1/lrps/:process_guid/instances/:instance_guid/stop"
    then some stop_lrp_handler
    else if r.path == "/v1/tasks/:task_guid/cancel"
    then some cancel_task_handler
    else if r.path == "/sim/reset"
    then some reset_handler
    else if r.path == "/evacuate"
    then some evacuation_handler
    else none

-- Each route has the handler of its method and path, and each handler has a route.
pub record Serves (routes : List Route) (handlers : GoMap Handler) : Type 0 where
  pub routed : All (λ r. lookup r.name handlers ≡ handler_for r) routes
  pub known : All (λ r. (h : Handler) × (handler_for r ≡ some h)) routes
  pub named : All (λ (name, _). Memᴰ name (map (λ (r : Route). r.name) routes)) handlers

-- Both servers, with the legacy API or without it: every route has the handler that its method and path
-- ask for, so that the router can be built, and every handler has a route.
pub get_routes-Serves :
    (legacy secure : Bool) → Serves (get_routes legacy secure) (get_handlers legacy secure)
unfolding get_routes get_handlers lookup put
get_routes-Serves true true = record {
  routed = (refl, (refl, (refl, (refl, (refl, tt)))));
  known = ((_, refl), ((_, refl), ((_, refl), ((_, refl), ((_, refl), tt)))));
  named = search (Memᴰ.head, Memᴰ.tail) depth 12;
}
get_routes-Serves true false = record {
  routed = (refl, (refl, (refl, (refl, (refl, (refl, (refl, tt)))))));
  known =
      ((_, refl), ((_, refl), ((_, refl), ((_, refl), ((_, refl), ((_, refl), ((_, refl), tt)))))));
  named = search (Memᴰ.head, Memᴰ.tail) depth 12;
}
get_routes-Serves false true = record {
  routed = (refl, (refl, (refl, (refl, (refl, tt)))));
  known = ((_, refl), ((_, refl), ((_, refl), ((_, refl), ((_, refl), tt)))));
  named = search (Memᴰ.head, Memᴰ.tail) depth 12;
}
get_routes-Serves false false = record {
  routed = (refl, (refl, tt));
  known = ((_, refl), ((_, refl), tt));
  named = search (Memᴰ.head, Memᴰ.tail) depth 12;
}
