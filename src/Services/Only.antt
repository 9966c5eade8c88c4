-- ===== src/Services/Only.antt =====
-- Which calls an action makes: a postcondition on the calls that it adds to the world, with a rule
-- for each way in which actions are composed.
use mathlib.Core.List.{append_assoc}
use rep.Base.{Bool, true, false, ◌≡◌, refl, List, [], ◌∷◌, ◌++◌}
use rep.Base.Tests.{if◌then◌else◌}
use rep.Base.Slices.{All, All-append}
use rep.Base.Result.{Result, ok, err}
use rep.Services.{Call, Reply, Env, World, M, pure, ◌>>=◌, ask, on_result}

-- The later calls are the earlier ones, with new ones in front that satisfy `P`.
abbrev pub Adds : (Call → Type 0) → List Call → List Call → Type 0
Adds P before after = (new : List Call) × All P new × (after ≡ new ++ before)

pub Adds-trans : (P : Call → Type 0) (a b c : List Call) → Adds P a b → Adds P b c → Adds P a c
Adds-trans P a b c (xs, hx, ex) (ys, hy, ey) =
    (ys ++ xs, All-append P ys xs hy hx, rw (ey, ex) (rw (append_assoc ys xs a)))

pub All-mono :
    (P Q : Call → Type 0) → ((c : Call) → P c → Q c) → (cs : List Call) → All P cs → All Q cs
All-mono P Q f [] h = tt
All-mono P Q f (c ∷ cs) h = (f c h.0, All-mono P Q f cs h.1)

-- An action that adds only calls that satisfy `P`.
pub record Only {S A : Type 0} (P : Call → Type 0) (m : M S A) : Type 0 where
  pub at : (w : World S) → Adds P w.calls (m w).1.calls

pub Only-mono :
    {S A : Type 0} {P Q : Call → Type 0} (m : M S A)
    → ((c : Call) → P c → Q c)
    → Only P m
    → Only Q m
Only-mono {P = P} {Q = Q} m f h = record {
  at = λ w. let (new, all, e) = h.at w in (new, All-mono P Q f new all, e);
}

module _ {S A : Type 0} {P : Call → Type 0} where
  pub Only-pure : (a : A) → Only {S = S} P (pure a)
  Only-pure a = record { at = λ w. ([], tt, refl) }

  pub Only-if :
      (b : Bool) (m n : M S A)
      → (b ≡ true → Only P m)
      → (b ≡ false → Only P n)
      → Only P (if b then m else n)
  Only-if true m n hm hn = hm refl
  Only-if false m n hm hn = hn refl

pub Only-ask : {S : Type 0} {P : Call → Type 0} (env : Env S) (c : Call) → P c → Only P (ask env c)
Only-ask env c p = record { at = λ w. (c ∷ [], (p, tt), refl) }

module _ {S A B : Type 0} {P : Call → Type 0} where
  -- The rest of the action may use that its argument is what the first part returns.
  pub Only-bind-value :
      (m : M S A) (f : A → M S B)
      → Only P m
      → ((w : World S) → Only P (f (m w).0))
      → Only P (m >>= f)
  Only-bind-value m f hm hf = record { at = λ w. Adds-trans P _ _ _ (hm.at w) ((hf w).at (m w).1) }

  pub Only-bind :
      (m : M S A) (f : A → M S B) → Only P m → ((a : A) → Only P (f a)) → Only P (m >>= f)
  Only-bind m f hm hf = Only-bind-value m f hm (λ w. hf (m w).0)

  pub Only-on_result :
      {E : Type 0} (r : Result E A) (f : A → M S B) (g : E → M S B)
      → ((a : A) → r ≡ ok a → Only P (f a))
      → ((e : E) → r ≡ err e → Only P (g e))
      → Only P (on_result r f g)
  Only-on_result (ok a) f g hf hg = hf a refl
  Only-on_result (err e) f g hf hg = hg e refl

module _ {S A : Type 0} {P : Call → Type 0} where
  -- The rest of the action may use what a call answers in a state of the outside world.
  pub Only-ask-bind :
      (env : Env S) (c : Call) (f : Reply c → M S A)
      → P c
      → ((s : S) → Only P (f (env.answer c s).0))
      → Only P (ask env c >>= f)
  Only-ask-bind env c f p hf = Only-bind-value (ask env c) f (Only-ask env c p) (λ w. hf w.outside)

pub ruleset only_rules = (Only-pure, Only-if, Only-ask, Only-bind, Only-on_result)
