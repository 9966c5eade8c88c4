-- ===== src/Evacuation/Panics.antt =====
-- Evacuate under any interleaving of its callers.
use rep.Base.{ℕ, Bool, true, false, ◌≡◌, refl, some, arith}
use rep.Evacuation.{
  not_closed, closed, Place, outside, locking, selecting, closing, unlocking, EvacuationContext,
  is_closed, evacuating, Step, call, lock, select, close, unlock, Reachable, start, next, new,
}

-- The goroutines that hold the mutex.
abbrev pub holds : Place → Bool
holds outside = false
holds locking = false
holds selecting = true
holds closing = true
holds unlocking = true

-- The holder of the mutex, and no other goroutine, is between Lock and Unlock, a goroutine that is about to close the
-- channel has it open, one that is about to leave has it closed, and nothing has panicked.
pub record IsSafe (e : EvacuationContext) : Type 0 where
  pub held : (j : ℕ) → holds (e.place j) ≡ true → e.mu ≡ some j
  pub holder : (j : ℕ) → e.mu ≡ some j → holds (e.place j) ≡ true
  pub unclosed : (j : ℕ) → e.place j ≡ closing → e.evacuated ≡ not_closed
  pub closed_after : (j : ℕ) → e.place j ≡ unlocking → e.evacuated ≡ closed
  pub no_panic : e.panicked ≡ false

module _ (e : EvacuationContext) (i : ℕ) (s : IsSafe e) where
  pub Step-IsSafe : {f : EvacuationContext} → Step e i f → IsSafe f
  unfolding is_closed
  Step-IsSafe (call p) = record {
    held = λ j h. ground (arith, s.held j);
    holder = λ j h. ground (arith, s.holder j, s.holder i);
    unclosed = λ j h. ground (arith, s.unclosed j);
    closed_after = λ j h. ground (arith, s.held i, s.held j, s.closed_after j);
    no_panic = s.no_panic;
  }
  Step-IsSafe (lock p free) = record {
    held = λ j h. ground (arith, s.held j);
    holder = λ j h. ground (arith, s.holder j, s.holder i);
    unclosed = λ j h. ground (arith, s.unclosed j);
    closed_after = λ j h. ground (arith, s.held i, s.held j, s.closed_after j);
    no_panic = s.no_panic;
  }
  Step-IsSafe (select p) = record {
    held = λ j h. ground (arith, s.held i, s.held j);
    holder = λ j h. ground (arith, s.holder j, s.holder i);
    unclosed = λ j h. ground (arith, s.unclosed j);
    closed_after = λ j h. ground (arith, s.held i, s.held j, s.closed_after j);
    no_panic = s.no_panic;
  }
  Step-IsSafe (close p) = record {
    held = λ j h. ground (arith, s.held i, s.held j);
    holder = λ j h. ground (arith, s.holder j, s.holder i);
    unclosed = λ j h. ground (arith, s.held i, s.held j);
    closed_after = λ j h. ground (arith, s.held i, s.held j, s.closed_after j);
    no_panic = ground (arith, s.no_panic, s.unclosed i);
  }
  Step-IsSafe (unlock p) = record {
    held = λ j h. ground (arith, s.held i, s.held j);
    holder = λ j h. ground (arith, s.holder j, s.holder i);
    unclosed = λ j h. ground (arith, s.unclosed j);
    closed_after = λ j h. ground (arith, s.held i, s.held j, s.closed_after j);
    no_panic = s.no_panic;
  }

new-IsSafe : IsSafe new
new-IsSafe = record {
  held = λ j h. cc;
  holder = λ j h. cc;
  unclosed = λ j h. cc;
  closed_after = λ j h. cc;
  no_panic = refl;
}

pub Reachable-IsSafe : {e : EvacuationContext} → Reachable e → IsSafe e
Reachable-IsSafe start = new-IsSafe
Reachable-IsSafe (next {e = d} i r step) = Step-IsSafe d i (Reachable-IsSafe r) step

-- However many goroutines call Evacuate, as often as they like and however they interleave, the channel
-- is never closed twice, so that nothing panics, and a goroutine that is about to leave Evacuate has
-- the cell evacuating.
pub Reachable-safe :
    {e : EvacuationContext}
    → Reachable e
    → (e.panicked ≡ false) × ((i : ℕ) → e.place i ≡ unlocking → evacuating e ≡ true)
unfolding evacuating is_closed
Reachable-safe r =
    let s = Reachable-IsSafe r in (s.no_panic, λ i h. ground (arith, s.closed_after i h))

-- Steps of any goroutines lead from the one context to the other.
pub data Leads (e : EvacuationContext) : EvacuationContext → Type 0 where
  stay : Leads e e
  then_step : {f g : EvacuationContext} (i : ℕ) → Leads e f → Step f i g → Leads e g

Step-evacuating :
    (e : EvacuationContext) (i : ℕ) {f : EvacuationContext}
    → Step e i f
    → evacuating e ≡ true
    → evacuating f ≡ true
unfolding evacuating is_closed
Step-evacuating e i (call p) h = h
Step-evacuating e i (lock p free) h = h
Step-evacuating e i (select p) h = h
Step-evacuating e i (close p) h = refl
Step-evacuating e i (unlock p) h = h

-- Evacuation is never taken back: once the cell evacuates, it does after any further steps.
pub Leads-evacuating :
    {e f : EvacuationContext} → Leads e f → evacuating e ≡ true → evacuating f ≡ true
Leads-evacuating stay h = h
Leads-evacuating (then_step {f = d} i l step) h = Step-evacuating d i step (Leads-evacuating l h)
