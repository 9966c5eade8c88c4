-- ===== src/Base/MapOrder.antt =====
-- Go maps up to the order in which Go ranges over them: maps with the same lookups, in which each key stands
-- once, have the same entries up to order.
use Prim.Native.String.{String}
use text.Mathlib.Text.{◌==◌}
use text.Mathlib.TextEquality.{eq_iff}
use text.Mathlib.TextPositions.{eq_refl}
use mathlib.Core.Path.{◌≡◌, refl}
use mathlib.Core.Logic.{inl, inr}
use mathlib.Core.Option.{none, some}
use mathlib.Core.List.{[], ◌∷◌, Permᴰ}
use mathlib.Core.List.Permᴰ
use native.Mathlib.Omega.{arith}
use rep.Base.Tests.{if◌then◌else◌, Bool-cases}
use rep.Base.GoMap.{GoMap, lookup}
use rep.Base.Maps.{Unique}

module _ {ℓ} {V : Type ℓ} where
  -- Two maps with the same lookups.
  abbrev pub Same : GoMap V → GoMap V → Type ℓ
  Same m n = (k : String) → lookup k m ≡ lookup k n

  abbrev without : String → GoMap V → GoMap V
  without k [] = []
  without k ((j, v) ∷ m) = if j == k then m else (j, v) ∷ without k m

  lookup-without :
      (k j : String) (m : GoMap V)
      → Unique m
      → lookup j (without k m) ≡ (if k == j then none else lookup j m)
  unfolding lookup
  lookup-without k j [] u = ground arith
  lookup-without k j ((i, v) ∷ m) u =
      ground (arith, eq_iff i k, eq_iff k j, eq_iff i j, u.0, lookup-without k j m u.1)

  Unique-without : (k : String) (m : GoMap V) → Unique m → Unique (without k m)
  unfolding lookup
  Unique-without k [] u = tt
  Unique-without k ((i, v) ∷ m) u = elim (Bool-cases (i == k)) [
    | inl same ↦ rw same u.1
    | inr apart ↦ rw apart (ground (arith, lookup-without k i m u.1, u.0), Unique-without k m u.1)
  ]

  without-Permᴰ :
      (k : String) (v : V) (m : GoMap V) → lookup k m ≡ some v → Permᴰ m ((k, v) ∷ without k m)
  unfolding lookup
  without-Permᴰ k v [] h = absurd (ground (arith, h))
  without-Permᴰ k v ((i, w) ∷ m) h = elim (Bool-cases (i == k)) [
    | inl same ↦ rw same (Permᴰ.cons (ground (arith, same, h, eq_iff i k)) (Permᴰ.refl m))
    | inr apart ↦
        rw apart (
          Permᴰ.trans (Permᴰ.cons refl (without-Permᴰ k v m (rw apart at h)))
            (Permᴰ.swap refl refl))
  ]

  pub Same-Permᴰ : (m n : GoMap V) → Unique m → Unique n → Same m n → Permᴰ m n
  unfolding lookup
  Same-Permᴰ [] [] u v same = Permᴰ.nil
  Same-Permᴰ [] ((k, x) ∷ n) u v same = absurd (ground (arith, same k, eq_refl k))
  Same-Permᴰ ((k, x) ∷ m) n u v same =
      Permᴰ.trans
        (Permᴰ.cons refl (
          Same-Permᴰ m (without k n) u.1 (Unique-without k n v)
            λ j. ground (arith, same j, lookup-without k j n v, eq_iff k j, u.0)))
        (Permᴰ.symm (without-Permᴰ k x n (ground (arith, same k, eq_refl k))))
