-- ===== src/Examples/Evacuating.antt =====
-- The theorems on Evacuate and on the evacuation endpoint, applied.
use rep.Base.{ℕ, String, Bool, false, true, ◌≡◌, refl, ◌∷◌, [], some}
use rep.Cell.{Work}
use rep.Models.{Container}
use rep.Services.{Env, World, ask, evacuating, list_containers}
use rep.Services.Latch.{Calls, no_calls, then_call}
use rep.Evacuation.{
  EvacuationContext, outside, locking, selecting, move, new, Reachable, start, next, call, lock,
}
use rep.Evacuation as Context
use rep.Evacuation.Panics.{Leads}
use rep.Evacuation.Leaves.{Reachable-returns}
use rep.Evacuation.{Step}
use rep.Evacuation.Specified.{Latched, LatchStep, view, Reachable-Latched}
use rep.Processor.{process_lrp}
use rep.Processor.Evacuation
use rep.AuctionRep.{AuctionCellRep}
use rep.Handlers.{status_ok, serve_evacuation, serve_perform}
use rep.Handlers.Evacuating.{with_context, with_context-Latches, serve_evacuation-drains}
use rep.Examples.{env}

-- Goroutine 1 holds the mutex, and goroutine 2 waits for it.
abbrev contended : EvacuationContext
contended = record {
  evacuated = new.evacuated;
  mu = some 1;
  place = move (move (move (λ _. outside) 1 locking) 1 selecting) 2 locking;
  panicked = false;
}

contended-Reachable : Reachable contended
contended-Reachable = next 2 (next 1 (next 1 start (call refl)) (lock refl refl)) (call refl)

Reachable-returns_example :
    (f : EvacuationContext) × Leads contended f
    × (f.place 2 ≡ outside)
    × (Context.evacuating f ≡ true)
    × (f.panicked ≡ false)
Reachable-returns_example = Reachable-returns 2 contended-Reachable

abbrev services : Env (EvacuationContext × Bool)
services = with_context env

abbrev asked : World (EvacuationContext × Bool)
asked = record { outside = (new, false); calls = [] }

abbrev listed : World (EvacuationContext × Bool)
listed = (ask services list_containers (serve_evacuation services (some []) asked).1).1

listed-Calls : Calls services (serve_evacuation services (some []) asked).1 listed
listed-Calls = then_call no_calls list_containers

serve_evacuation-drains_example :
    ((a : AuctionCellRep) (work : Work)
      → ((serve_perform services a (some work) listed).0 ≡ (status_ok, some work))
        × ((serve_perform services a (some work) listed).1.calls ≡ evacuating ∷ listed.calls))
    × ((cell_id : String) (ttl : ℕ) (container : Container)
        → process_lrp services cell_id ttl container listed
          ≡ Evacuation.process services cell_id ttl container (ask services evacuating listed).1)
serve_evacuation-drains_example =
    serve_evacuation-drains services (some []) asked (with_context-Latches env) listed-Calls

Reachable-Latched_example :
    Latched (view contended)
    × ((i : ℕ) (f : EvacuationContext) → Step contended i f → LatchStep (view contended) (view f))
Reachable-Latched_example = Reachable-Latched contended-Reachable
