-- ===== src/Evacuation.antt =====
-- evacuation/evacuation_context/evacuation_context.go: the context that tells the parts of the rep
-- whether the cell evacuates. Closing a closed channel panics, so Evacuate looks first, under a mutex.
-- The goroutines that call Evacuate are numbered; each step of one is a step of the context.
pub mod Panics
pub mod Leaves
pub mod Specified
use rep.Base.{ℕ, Bool, true, false, ◌≡◌, ◌||◌, Option, none, some}
use rep.Base.Tests.{if◌then◌else◌, eqb}

pub data Channel : Type 0 where
  not_closed closed : Channel

-- Where a goroutine stands in Evacuate: before it, before `e.mu.Lock()` returns, before the select,
-- before `close(e.evacuated)`, and before the deferred Unlock.
pub data Place : Type 0 where
  outside locking selecting closing unlocking : Place

pub record EvacuationContext : Type 0 where
  pub evacuated : Channel
  pub mu : Option ℕ
  pub place : ℕ → Place
  pub panicked : Bool

abbrev pub new : EvacuationContext
new = record { evacuated = not_closed; mu = none; place = λ _. outside; panicked = false }

-- Evacuating().
unfoldable pub is_closed : Channel → Bool
is_closed not_closed = false
is_closed closed = true

unfoldable pub evacuating : EvacuationContext → Bool
unfolding is_closed
evacuating e = is_closed e.evacuated

-- EvacuateNotify().
unfoldable pub evacuate_notify : EvacuationContext → Channel
evacuate_notify e = e.evacuated

abbrev pub move : (ℕ → Place) → ℕ → Place → ℕ → Place
move place i p j = if eqb i j then p else place j

-- The select: `case <-e.evacuated` if the channel is closed, else `default`.
abbrev pub selected : Channel → Place
selected not_closed = closing
selected closed = unlocking

-- A step of goroutine `i`.
pub data Step (e : EvacuationContext) (i : ℕ) : EvacuationContext → Type 0 where
  call : e.place i ≡ outside → Step e i (record e { place = move e.place i locking })
  lock :
      e.place i ≡ locking
      → e.mu ≡ none
      → Step e i (record e { mu = some i; place = move e.place i selecting })
  select :
      e.place i ≡ selecting → Step e i (record e { place = move e.place i (selected e.evacuated) })
  close :
      e.place i ≡ closing
      → Step e i (record e {
        evacuated = closed;
        panicked = e.panicked || is_closed e.evacuated;
        place = move e.place i unlocking;
      })
  unlock : e.place i ≡ unlocking → Step e i (record e { mu = none; place = move e.place i outside })

-- The contexts that goroutines reach from a new one.
pub data Reachable : EvacuationContext → Type 0 where
  start : Reachable new
  next : {e f : EvacuationContext} (i : ℕ) → Reachable e → Step e i f → Reachable f
