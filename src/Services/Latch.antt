-- ===== src/Services/Latch.antt =====
-- What the rep relies on of the evacuation context, as an interface: Evacuate sets a latch that Evacuating
-- reads and that no call resets. The calls of all goroutines of the rep, in the order in which the services
-- see them, are a sequence of calls.
use rep.Base.{◌≡◌, true}
use rep.Services.{Call, Env, World, ask, evacuating, evacuate}

pub record Latches {S : Type 0} (env : Env S) : Type 0 where
  pub sets : (s : S) → (env.answer evacuating (env.answer evacuate s).1).0 ≡ true
  pub keeps :
      (c : Call) (s : S)
      → (env.answer evacuating s).0 ≡ true
      → (env.answer evacuating (env.answer c s).1).0 ≡ true

-- Calls from the world `w` on.
pub data Calls {S : Type 0} (env : Env S) (w : World S) : World S → Type 0 where
  no_calls : Calls env w w
  then_call : {v : World S} → Calls env w v → (c : Call) → Calls env w (ask env c v).1

pub Calls-evacuating :
    {S : Type 0} (env : Env S) {w v : World S}
    → Latches env
    → Calls env w v
    → (env.answer evacuating w.outside).0 ≡ true
    → (env.answer evacuating v.outside).0 ≡ true
Calls-evacuating env latches no_calls h = h
Calls-evacuating env latches (then_call {v = u} calls c) h =
    latches.keeps c u.outside (Calls-evacuating env latches calls h)
