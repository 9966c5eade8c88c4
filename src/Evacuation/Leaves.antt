-- ===== src/Evacuation/Leaves.antt =====
-- Evacuate returns: no interleaving of its callers leads to a deadlock.
use rep.Base.{ℕ, true, false, ◌≡◌, refl, ◌∙◌, ap, Option, none, some, arith}
use rep.Base.Tests.{eqb}
use rep.Evacuation.{
  Channel, not_closed, closed, Place, outside, locking, selecting, closing, unlocking, move,
  selected, EvacuationContext, is_closed, evacuating, Step, call, lock, select, close, unlock,
  Reachable,
}
use rep.Evacuation.Panics.{holds, IsSafe, Step-IsSafe, Reachable-IsSafe, Leads, stay, then_step}

-- Steps lead to a context where goroutine `i` is outside Evacuate, the mutex is free, the cell
-- evacuates, and the other goroutines are where they were.
record Left (e : EvacuationContext) (i : ℕ) : Type 0 where
  to : EvacuationContext
  leads : Leads e to
  safe : IsSafe to
  out : to.place i ≡ outside
  free : to.mu ≡ none
  others : (j : ℕ) → eqb i j ≡ false → to.place j ≡ e.place j
  evacuates : evacuating to ≡ true

Leads-trans : {e f g : EvacuationContext} → Leads e f → Leads f g → Leads e g
Leads-trans l stay = l
Leads-trans l (then_step i m step) = then_step i (Leads-trans l m) step

-- One step of goroutine `i`, and then those that are left.
after :
    {e f : EvacuationContext} (i : ℕ)
    → Step e i f
    → ((j : ℕ) → eqb i j ≡ false → f.place j ≡ e.place j)
    → Left f i
    → Left e i
after i step moves l = record {
  to = l.to;
  leads = Leads-trans (then_step i stay step) l.leads;
  safe = l.safe;
  out = l.out;
  free = l.free;
  others = λ j h. l.others j h ∙ moves j h;
  evacuates = l.evacuates;
}

place-move : (p : ℕ → Place) (i : ℕ) (x : Place) → move p i x i ≡ x
place-move p i x = ground arith

others-move : (p : ℕ → Place) (i : ℕ) (x : Place) (j : ℕ) → eqb i j ≡ false → move p i x j ≡ p j
others-move p i x j h = ground arith

module _ (e : EvacuationContext) (i : ℕ) (s : IsSafe e) where
  from_unlocking : e.place i ≡ unlocking → Left e i
  unfolding evacuating is_closed
  from_unlocking p = record {
    to = record e { mu = none; place = move e.place i outside };
    leads = then_step i stay (unlock p);
    safe = Step-IsSafe e i s (unlock p);
    out = place-move e.place i outside;
    free = refl;
    others = others-move e.place i outside;
    evacuates = ap is_closed (s.closed_after i p);
  }

from_closing : (e : EvacuationContext) (i : ℕ) → IsSafe e → e.place i ≡ closing → Left e i
from_closing e i s p =
    after i (close p) (others-move e.place i unlocking)
      (from_unlocking _ i (Step-IsSafe e i s (close p)) (place-move e.place i unlocking))

from_selected :
    (e : EvacuationContext) (i : ℕ) (c : Channel) → IsSafe e → e.place i ≡ selected c → Left e i
from_selected e i not_closed s p = from_closing e i s p
from_selected e i closed s p = from_unlocking e i s p

from_selecting : (e : EvacuationContext) (i : ℕ) → IsSafe e → e.place i ≡ selecting → Left e i
from_selecting e i s p = after i (select p) (others-move e.place i (selected e.evacuated)) (
    from_selected _ i e.evacuated (Step-IsSafe e i s (select p))
      (place-move e.place i (selected e.evacuated)))

from_free :
    (e : EvacuationContext) (i : ℕ) → IsSafe e → e.place i ≡ locking → e.mu ≡ none → Left e i
from_free e i s p free =
    after i (lock p free) (others-move e.place i selecting)
      (from_selecting _ i (Step-IsSafe e i s (lock p free)) (place-move e.place i selecting))

-- The goroutine that holds the mutex leaves.
from_held :
    (e : EvacuationContext) (j : ℕ) (p : Place)
    → IsSafe e
    → e.place j ≡ p
    → holds p ≡ true
    → Left e j
from_held e j outside s at h = cc
from_held e j locking s at h = cc
from_held e j selecting s at h = from_selecting e j s at
from_held e j closing s at h = from_closing e j s at
from_held e j unlocking s at h = from_unlocking e j s at

-- Where a goroutine waits for the mutex, its holder can leave first.
record Returned (e : EvacuationContext) (i : ℕ) : Type 0 where
  to : EvacuationContext
  leads : Leads e to
  safe : IsSafe to
  out : to.place i ≡ outside
  evacuates : evacuating to ≡ true

Left-Returned : {e : EvacuationContext} {i : ℕ} → Left e i → Returned e i
Left-Returned l = record {
  to = l.to;
  leads = l.leads;
  safe = l.safe;
  out = l.out;
  evacuates = l.evacuates;
}

Returned-after : {e f : EvacuationContext} {i : ℕ} → Leads e f → Returned f i → Returned e i
Returned-after l r = record {
  to = r.to;
  leads = Leads-trans l r.leads;
  safe = r.safe;
  out = r.out;
  evacuates = r.evacuates;
}

waiter_apart :
    (j i : ℕ) (p q : Place) → holds p ≡ true → q ≡ locking → (j ≡ i → p ≡ q) → eqb j i ≡ false
waiter_apart j i p q h at same = ground (arith, same)

from_locking :
    (e : EvacuationContext) (i : ℕ) (mu : Option ℕ)
    → IsSafe e
    → e.place i ≡ locking
    → e.mu ≡ mu
    → Returned e i
from_locking e i none s p m = Left-Returned (from_free e i s p m)
from_locking e i (some j) s p m =
    let l = from_held e j (e.place j) s refl (s.holder j m) in
    let apart =
      waiter_apart j i (e.place j) (e.place i) (s.holder j m) p (λ same. ap e.place same) in
    Returned-after l.leads (Left-Returned (from_free l.to i l.safe (l.others i apart ∙ p) l.free))

from_place : (e : EvacuationContext) (i : ℕ) (p : Place) → IsSafe e → e.place i ≡ p → Returned e i
from_place e i outside s at =
    Returned-after (then_step i stay (call at))
      (from_locking _ i e.mu (Step-IsSafe e i s (call at)) (place-move e.place i locking) refl)
from_place e i locking s at = from_locking e i e.mu s at refl
from_place e i selecting s at = Left-Returned (from_selecting e i s at)
from_place e i closing s at = Left-Returned (from_closing e i s at)
from_place e i unlocking s at = Left-Returned (from_unlocking e i s at)

-- Whatever the callers of Evacuate have done so far, none of them is stuck: from every context that
-- goroutines reach, a goroutine that is in Evacuate, or that calls it now, can return from it, and when it
-- has, the cell evacuates and nothing has panicked.
pub Reachable-returns :
    {e : EvacuationContext} (i : ℕ)
    → Reachable e
    → (f : EvacuationContext) × Leads e f
      × (f.place i ≡ outside)
      × (evacuating f ≡ true)
      × (f.panicked ≡ false)
Reachable-returns {e} i r =
    let t = from_place e i (e.place i) (Reachable-IsSafe r) refl in
    (t.to, t.leads, t.out, t.evacuates, t.safe.no_panic)
