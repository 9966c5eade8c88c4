-- ===== src/Base/Maps.antt =====
-- Maps in which each key stands once, and what ranging over such a map and putting its entries gives.
use Prim.Native.String.{String}
use text.Mathlib.Text.{◌==◌}
use text.Mathlib.TextEquality.{eq_iff}
use mathlib.Core.Path.{◌≡◌, refl}
use mathlib.Core.Logic.{inl, inr}
use mathlib.Core.Option.{none}
use mathlib.Core.List.{[], ◌∷◌, ◌++◌}
use native.Mathlib.Omega.{arith}
use rep.Base.Tests.{if◌then◌else◌, Bool-cases}
use rep.Base.GoMap.{GoMap, lookup, put, has, lookup-put}

module _ {ℓ} {V : Type ℓ} where
  abbrev pub Unique : GoMap V → Type ℓ
  Unique [] = Unit
  Unique ((k, v) ∷ m) = (lookup k m ≡ none) × Unique m

  pub Unique-put : (k : String) (v : V) (m : GoMap V) → Unique m → Unique (put k v m)
  unfolding put lookup
  Unique-put k v [] u = (refl, tt)
  Unique-put k v ((j, w) ∷ m) u = elim (Bool-cases (j == k)) [
    | inl same ↦ rw same u
    | inr apart ↦
        rw apart (ground (arith, lookup-put k j v m, eq_iff k j, eq_iff j k), Unique-put k v m u.1)
  ]

  pub Unique-put_missing :
      (k : String) (v : V) (m : GoMap V) → Unique m → Unique (if has k m then m else put k v m)
  Unique-put_missing k v m u = elim (Bool-cases (has k m)) [
    | inl found ↦ rw found u
    | inr missing ↦ rw missing (Unique-put k v m u)
  ]

  -- A new key goes to the end.
  pub put-fresh :
      (k : String) (v : V) (m : GoMap V) → lookup k m ≡ none → put k v m ≡ m ++ ((k, v) ∷ [])
  unfolding put lookup
  put-fresh k v [] h = refl
  put-fresh k v ((j, w) ∷ m) h = ground (arith, put-fresh k v m (ground arith))

-- No key of the second map is in the first.
abbrev pub Fresh {ℓ κ} : {V : Type ℓ} {W : Type κ} → GoMap V → GoMap W → Type ℓ
Fresh m [] = Unit
Fresh m ((k, w) ∷ more) = (lookup k m ≡ none) × Fresh m more

module _ {ℓ κ} {W : Type κ} (V : Type ℓ) where
  pub Fresh-nil : (n : GoMap W) → Fresh {V = V} [] n
  unfolding lookup
  Fresh-nil [] = tt
  Fresh-nil ((k, w) ∷ more) = (refl, Fresh-nil more)

module _ {ℓ κ} {V : Type ℓ} {W : Type κ} where
  pub Fresh-put :
      (k : String) (v : V) (m : GoMap V) (n : GoMap W)
      → lookup k n ≡ none
      → Fresh m n
      → Fresh (put k v m) n
  unfolding lookup
  Fresh-put k v m [] h f = tt
  Fresh-put k v m ((j, w) ∷ n) h f = (
    ground (arith, lookup-put k j v m, eq_iff k j, eq_iff j k, f.0),
    Fresh-put k v m n (ground arith) f.1,
  )
