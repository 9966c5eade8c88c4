-- ===== src/Services/Stays.antt =====
-- What stays true of the outside world while an action runs, whatever it calls: a property that every call
-- keeps, allocations left out, with a rule for each way in which actions are composed.
use rep.Base.{Bool, true, false, ◌≡◌}
use rep.Base.Tests.{if◌then◌else◌}
use rep.Base.Result.{Result, ok, err}
use rep.Services.{Call, Env, World, M, pure, ◌>>=◌, ask, on_result, allocate_containers}

abbrev pub allocates : Call → Bool
allocates (allocate_containers requests) = true
allocates c = false

-- Every call but AllocateContainers keeps the property.
pub record IsKept {S : Type 0} (env : Env S) (P : S → Type 0) : Type 0 where
  pub kept : (c : Call) (s : S) → allocates c ≡ false → P s → P (env.answer c s).1

-- The action keeps the property.
pub record Stays {S A : Type 0} (P : S → Type 0) (m : M S A) : Type 0 where
  pub at : (w : World S) → P w.outside → P (m w).1.outside

module _ {S A : Type 0} {P : S → Type 0} where
  pub Stays-pure : (a : A) → Stays {S = S} P (pure a)
  Stays-pure a = record { at = λ w p. p }

  pub Stays-if : (b : Bool) (m n : M S A) → Stays P m → Stays P n → Stays P (if b then m else n)
  Stays-if true m n hm hn = hm
  Stays-if false m n hm hn = hn

pub Stays-ask :
    {S : Type 0} {P : S → Type 0} (env : Env S) (c : Call)
    → IsKept env P
    → allocates c ≡ false
    → Stays P (ask env c)
Stays-ask env c k h = record { at = λ w p. k.kept c w.outside h p }

module _ {S A B : Type 0} {P : S → Type 0} where
  pub Stays-bind :
      (m : M S A) (f : A → M S B) → Stays P m → ((a : A) → Stays P (f a)) → Stays P (m >>= f)
  Stays-bind m f hm hf = record { at = λ w p. (hf (m w).0).at (m w).1 (hm.at w p) }

  pub Stays-on_result :
      {E : Type 0} (r : Result E A) (f : A → M S B) (g : E → M S B)
      → ((a : A) → Stays P (f a))
      → ((e : E) → Stays P (g e))
      → Stays P (on_result r f g)
  Stays-on_result (ok a) f g hf hg = hf a
  Stays-on_result (err e) f g hf hg = hg e

pub ruleset stays_rules = (Stays-pure, Stays-if, Stays-ask, Stays-bind, Stays-on_result)
