-- ===== src/Examples/Announced.antt =====
-- The theorems on the maintainer, the presences and the command's configuration, applied.
use Prim.Native.String.{String}
use mathlib.Core.List.{List, [] as []ᴸ, ◌∷◌ as ◌∷ᴸ◌}
use text.Mathlib.Text.{◌==◌}
use rep.Base.{◌≤◌, Bool, true, false, ◌≡◌, ◌≢◌, refl, ◌⊎◌, none, some}
use rep.Base.Tests.{if◌then◌else◌}
use rep.Base.Int.{pos}
use rep.Base.GoMap.{GoMap, lookup, put}
use rep.Base.Result.{Result, ok, err}
use rep.Services.{ping, total_resources}
use rep.Maintainer.{
  Config, CellPresence, Maintainer, new_maintainer, cell_presence, create_heartbeater, starting,
  heartbeating, after_heartbeat, heartbeat_error, started, Steps, stay, then_step, ping_executor,
  create, see_ready, exit, become_ready,
}
use rep.Base.{Option}
use rep.Maintainer.{MaintainError, returned}
use rep.Maintainer.Stops.{Steps-returns}
use rep.Maintainer.Phases.{has_returned, is_told}
use rep.Maintainer.Run.{Steps-safe}
use rep.Maintainer.Ready.{failed_start-closes}
use mathlib.Core.List.{map, ◌++◌ as ◌++ᴸ◌}
use rep.Presence.{Consul, KvPair, key_not_found, prefix_not_found, cells, disappeared_cells}
use rep.Presence.Events.{
  CellEvents, watched, receive, send, Steps as EventSteps, stay as stay_here, then_step as and_step,
  in_flight, Steps-events,
}
use rep.Presence.Found.{Announced, cells-Announced}
use rep.Command.StackMap.{
  StackMap, unmarshal_stack_map, marshal_stack_map, add_entries, entry_parts, split_colon,
  entries_of, entry,
}
use rep.Command.StackMaps.{unmarshal-marshal}
use rep.Examples.{env, steady, executor_resources}

abbrev config : Config
config = record {
  cell_id = "cell";
  rep_address = "http://10.0.0.1:1800";
  rep_url = "https://cell.cell.service.cf.internal:1801";
  zone = "z1";
  retry_interval = pos 5;
  root_fs_providers = "docker" ∷ᴸ []ᴸ;
  preloaded_root_fses = "linux" ∷ᴸ []ᴸ;
  placement_tags = []ᴸ;
  optional_placement_tags = []ᴸ;
}

abbrev presence : CellPresence
presence = cell_presence config executor_resources

-- Run has started the first heartbeat process, which has not become ready.
abbrev at_start : Maintainer Bool
at_start = record {
  phase = starting;
  ready = true;
  closes = 0;
  process = some (started presence);
  alive = 1;
  world = record { outside = false; calls = total_resources ∷ᴸ ping ∷ᴸ []ᴸ };
}

first_start : Steps env config (new_maintainer steady) at_start
unfolding create_heartbeater
first_start = then_step (then_step stay (ping_executor refl)) (create refl)

Steps-safe_example :
    (at_start.closes ≤ 1)
    × (at_start.alive ≤ 1)
    × (has_returned at_start.phase ≡ true
        → (at_start.alive ≡ 0) ⊎ (is_told at_start.process ≡ true))
Steps-safe_example = Steps-safe env config steady first_start

-- It exits with an error.
abbrev at_exit : Maintainer Bool
at_exit = record at_start {
  process = some (record {
    presence = presence;
    is_ready = false;
    signaled = false;
    exit = some (some (heartbeat_error "lost"));
  });
  alive = 0;
}

first_exit : Steps env config (new_maintainer steady) at_exit
first_exit = then_step first_start (exit refl refl (some (heartbeat_error "lost")))

-- The second heartbeat process is ready, and Run heartbeats.
abbrev later : Maintainer Bool
later = record {
  phase = heartbeating;
  ready = false;
  closes = 0;
  process = some (record { presence = presence; is_ready = true; signaled = false; exit = none });
  alive = 1;
  world = record {
    outside = false;
    calls = total_resources ∷ᴸ ping ∷ᴸ total_resources ∷ᴸ ping ∷ᴸ []ᴸ;
  };
}

second_start : Steps env config (after_heartbeat (some (heartbeat_error "lost")) at_exit) later
unfolding create_heartbeater
second_start =
    then_step
      (then_step (then_step (then_step stay (ping_executor refl)) (create refl))
        (become_ready refl refl))
      (see_ready refl refl refl)

failed_start-closes_example : later.closes ≡ 0
failed_start-closes_example =
    failed_start-closes env config steady first_exit refl refl (some (heartbeat_error "lost"))
      second_start

abbrev pair : KvPair
pair = record { value = "{cell}"; session = "session" }

abbrev consul : Consul
consul = record {
  get = λ key. ok (some pair);
  list = λ key. (some (pair ∷ᴸ []ᴸ), none);
  to_json = λ p. some "{cell}";
  from_json = λ text. if text == "{cell}" then ok presence else err "no JSON";
  lock_schema_path = λ parts. "v1/locks";
  new_key_not_found = key_not_found;
  new_prefix_not_found = prefix_not_found;
  convert_error = λ e. e;
  base = λ key. key;
}

cells-Announced_example :
    (set : GoMap CellPresence) × (cells consul ≡ ok set)
    × ((cell_id : String) (p : CellPresence)
        → lookup cell_id set ≡ some p
        → Announced consul p (pair ∷ᴸ []ᴸ) × (p.cell_id ≡ cell_id))
    × ((p : CellPresence) → Announced consul p (pair ∷ᴸ []ᴸ) → lookup p.cell_id set ≢ none)
cells-Announced_example = cells-Announced consul (pair ∷ᴸ []ᴸ) refl

-- A codec for lists of one text.
abbrev write_entries : List String → Result String String
write_entries []ᴸ = err "empty"
write_entries (s ∷ᴸ []ᴸ) = ok s
write_entries (s ∷ᴸ t ∷ᴸ more) = err "long"

abbrev read_entries : String → Result String (List String)
read_entries text = ok (text ∷ᴸ []ᴸ)

read-write :
    (entries : List String) (text : String)
    → write_entries entries ≡ ok text
    → read_entries text ≡ ok entries
read-write []ᴸ text h = cc
read-write (s ∷ᴸ []ᴸ) text h = cc
read-write (s ∷ᴸ t ∷ᴸ more) text h = cc

abbrev preloaded : StackMap
preloaded = ("linux", "/rootfs:1") ∷ᴸ []ᴸ

preloaded_read : unmarshal_stack_map read_entries "linux:/rootfs:1" ≡ ok preloaded
unfolding unmarshal_stack_map add_entries entry_parts split_colon put
preloaded_read = refl

preloaded_written : marshal_stack_map write_entries preloaded ≡ ok "linux:/rootfs:1"
unfolding marshal_stack_map entries_of entry
preloaded_written = refl

unmarshal-marshal_example : unmarshal_stack_map read_entries "linux:/rootfs:1" ≡ ok preloaded
unmarshal-marshal_example =
    unmarshal-marshal read_entries write_entries "linux:/rootfs:1" preloaded "linux:/rootfs:1"
      read-write preloaded_read preloaded_written

-- The watcher has sent the key of a cell, and the goroutine its event.
abbrev one_event : CellEvents
one_event = record {
  disappeared = []ᴸ;
  sending = none;
  returned = false;
  signals = 0;
  events = disappeared_cells consul ("v1/locks/cell/a" ∷ᴸ []ᴸ) ∷ᴸ []ᴸ;
}

one_event-Steps : EventSteps consul (watched (("v1/locks/cell/a" ∷ᴸ []ᴸ) ∷ᴸ []ᴸ)) one_event
one_event-Steps = and_step (and_step stay_here (receive refl refl refl)) (send refl)

Steps-events_example :
    (one_event.events ++ᴸ (in_flight none ++ᴸ map (map consul.base) []ᴸ)
      ≡ map (map consul.base) (("v1/locks/cell/a" ∷ᴸ []ᴸ) ∷ᴸ []ᴸ))
    × (one_event.returned ≡ true
        → (one_event.events ≡ map (map consul.base) (("v1/locks/cell/a" ∷ᴸ []ᴸ) ∷ᴸ []ᴸ))
          × (one_event.signals ≡ 1))
Steps-events_example = Steps-events consul (("v1/locks/cell/a" ∷ᴸ []ᴸ) ∷ᴸ []ᴸ) one_event-Steps

Steps-returns_example :
    (n : Maintainer Bool) × (e : Option MaintainError) × Steps env config at_start n
    × (n.phase ≡ returned e)
Steps-returns_example = Steps-returns env config steady at_start first_start
