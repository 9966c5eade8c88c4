-- ===== src/Handlers/Evacuating.antt =====
-- The evacuation endpoint together with the parts of the rep that ask whether the cell evacuates: the
-- auction cell rep and the LRP processor, as cmd/rep/main.go gives all of them one evacuation context.
use rep.Base.{ℕ, String, ◌≡◌, refl, true, ◌∷◌, Option, some}
use rep.Cell.{Work}
use rep.Models.{Message, Container}
use rep.Services.{Call, Reply, Env, World, ask, evacuating, evacuate}
use rep.Services.Latch.{Latches, Calls, Calls-evacuating}
use rep.Evacuation.{Channel, closed, EvacuationContext, is_closed}
use rep.Evacuation as Context
use rep.Processor.{process_lrp}
use rep.Processor.Evacuation
use rep.AuctionRep.{AuctionCellRep}
use rep.AuctionRep.Perform.Failures.{perform-evacuating}
use rep.Handlers.{status_ok, serve_evacuation, serve_perform}

-- The services, with Evacuate and Evacuating answered by an evacuation context that stands beside
-- the rest of the outside world; a call of Evacuate that returns leaves the channel closed.
abbrev context_answer :
    {S : Type 0} → Env S → (c : Call) → EvacuationContext × S → Reply c × (EvacuationContext × S)
context_answer env evacuate (e, s) = (tt, (record e { evacuated = closed }, s))
context_answer env evacuating (e, s) = (Context.evacuating e, (e, s))
context_answer env c (e, s) = let (reply, t) = env.answer c s in (reply, (e, t))

abbrev pub with_context : {S : Type 0} → Env S → Env (EvacuationContext × S)
with_context env = record { lib = env.lib; answer = context_answer env }

pub with_context-Latches : {S : Type 0} (env : Env S) → Latches (with_context env)
unfolding Context.evacuating is_closed
with_context-Latches {S = S} env = record { sets = λ s. refl; keeps = kept }
  where
    kept :
        (c : Call) (s : EvacuationContext × S)
        → ((with_context env).answer evacuating s).0 ≡ true
        → ((with_context env).answer evacuating ((with_context env).answer c s).1).0 ≡ true
    kept evacuate (e, s) h = refl
    kept evacuating (e, s) h = h
    kept c (e, s) h = h

-- Where Evacuate sets what Evacuating reads and no call resets it: once the evacuation endpoint has answered,
-- whatever calls the goroutines of the rep make then, every request for work is answered with all of
-- that work as failed and with no call but the look at the context, and every LRP container is handled by
-- the evacuation processor.
pub serve_evacuation-drains :
    {S : Type 0} (env : Env S) (marshalled : Option Message) (w : World S) {v : World S}
    → Latches env
    → Calls env (serve_evacuation env marshalled w).1 v
    → ((a : AuctionCellRep) (work : Work)
        → ((serve_perform env a (some work) v).0 ≡ (status_ok, some work))
          × ((serve_perform env a (some work) v).1.calls ≡ evacuating ∷ v.calls))
      × ((cell_id : String) (ttl : ℕ) (container : Container)
          → process_lrp env cell_id ttl container v
            ≡ Evacuation.process env cell_id ttl container (ask env evacuating v).1)
unfolding serve_evacuation serve_perform process_lrp
serve_evacuation-drains env marshalled w {v} latches calls =
    let set = Calls-evacuating env latches calls (latches.sets w.outside) in
    (
      λ a work. let (all, looked) = perform-evacuating env a work v set in (rw all refl, looked),
      λ cell_id ttl container. rw set refl,
    )
