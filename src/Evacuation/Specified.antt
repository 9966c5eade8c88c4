-- ===== src/Evacuation/Specified.antt =====
-- What the evacuation context promises, without its mutex and channel: a latch that each call of Evacuate
-- sets in one moment between its start and its return; and that the goroutines keep to this.
use rep.Base.{ℕ, Bool, true, false, ◌≡◌, refl, ap, arith}
use rep.Base.Tests.{eqb, if◌then◌else◌}
use rep.Evacuation.{
  Channel, not_closed, closed, Place, outside, locking, selecting, closing, unlocking, move,
  selected, EvacuationContext, is_closed, evacuating, Step, call, lock, select, close, unlock,
  Reachable, start, next, new,
}
use rep.Evacuation.Panics.{IsSafe, Reachable-IsSafe}

-- Whether the cell evacuates, and which goroutines are in a call of Evacuate.
pub record Latch : Type 0 where
  pub set : Bool
  pub inside : ℕ → Bool

-- What can happen to the latch; a call returns only once the latch is set, and nothing resets it.
pub data LatchStep (s t : Latch) : Type 0 where
  stutter : t.set ≡ s.set → ((j : ℕ) → t.inside j ≡ s.inside j) → LatchStep s t
  enter :
      (i : ℕ)
      → s.inside i ≡ false
      → t.set ≡ s.set
      → ((j : ℕ) → t.inside j ≡ (if eqb i j then true else s.inside j))
      → LatchStep s t
  set_latch :
      (i : ℕ)
      → s.inside i ≡ true
      → t.set ≡ true
      → ((j : ℕ) → t.inside j ≡ s.inside j)
      → LatchStep s t
  leave :
      (i : ℕ)
      → s.inside i ≡ true
      → s.set ≡ true
      → t.set ≡ true
      → ((j : ℕ) → t.inside j ≡ (if eqb i j then false else s.inside j))
      → LatchStep s t

-- Steps of a latch that is not set and that nobody sets yet.
pub data Latched : Latch → Type 0 where
  fresh : (s : Latch) → s.set ≡ false → ((j : ℕ) → s.inside j ≡ false) → Latched s
  and_step : {s t : Latch} → Latched s → LatchStep s t → Latched t

abbrev pub is_inside : Place → Bool
is_inside outside = false
is_inside locking = true
is_inside selecting = true
is_inside closing = true
is_inside unlocking = true

-- The latch that a context implements.
abbrev pub view : EvacuationContext → Latch
view e = record { set = evacuating e; inside = λ j. is_inside (e.place j) }

inside-move :
    (p : ℕ → Place) (i : ℕ) (x : Place) (j : ℕ)
    → is_inside (move p i x j) ≡ (if eqb i j then is_inside x else is_inside (p j))
inside-move p i x j = ground arith

-- A move within Evacuate.
inside-within :
    (p : ℕ → Place) (i : ℕ) (x : Place) (j : ℕ)
    → is_inside (p i) ≡ true
    → is_inside x ≡ true
    → is_inside (move p i x j) ≡ is_inside (p j)
inside-within p i x j h k = ground arith

selected-inside : (c : Channel) → is_inside (selected c) ≡ true
selected-inside not_closed = refl
selected-inside closed = refl

Step-LatchStep :
    {e : EvacuationContext} (i : ℕ) {f : EvacuationContext}
    → IsSafe e
    → Step e i f
    → LatchStep (view e) (view f)
unfolding evacuating is_closed
Step-LatchStep {e} i s (call p) = enter i (ap is_inside p) refl (inside-move e.place i locking)
Step-LatchStep {e} i s (lock p free) =
    stutter refl (λ j. inside-within e.place i selecting j (ap is_inside p) refl)
Step-LatchStep {e} i s (select p) = stutter refl λ j.
    inside-within e.place i (selected e.evacuated) j (ap is_inside p) (selected-inside e.evacuated)
Step-LatchStep {e} i s (close p) =
    set_latch i (ap is_inside p) refl
      (λ j. inside-within e.place i unlocking j (ap is_inside p) refl)
Step-LatchStep {e} i s (unlock p) =
    leave i (ap is_inside p) (ap is_closed (s.closed_after i p)) (ap is_closed (s.closed_after i p))
      (inside-move e.place i outside)

new-unset : evacuating new ≡ false
unfolding evacuating is_closed
new-unset = refl

-- The goroutines of the context refine the latch: however they interleave, each of their steps is a step of
-- the latch or none, so that every context that they reach is a latch that was reached from a fresh one by
-- calls that enter, set it in one moment, and return only once it is set.
pub Reachable-Latched :
    {e : EvacuationContext}
    → Reachable e
    → Latched (view e)
      × ((i : ℕ) (f : EvacuationContext) → Step e i f → LatchStep (view e) (view f))
Reachable-Latched {e} r = (latched r, λ i f step. Step-LatchStep i (Reachable-IsSafe r) step)
  where
    latched : {d : EvacuationContext} → Reachable d → Latched (view d)
    latched start = fresh (view new) new-unset (λ j. refl)
    latched (next i q step) = and_step (latched q) (Step-LatchStep i (Reachable-IsSafe q) step)
