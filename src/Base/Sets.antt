-- ===== src/Base/Sets.antt =====
-- Go's map[string]struct{} used as a set.
use Prim.Native.String.{String}
use text.Mathlib.Text.{◌==◌}
use text.Mathlib.TextEquality.{eq_iff}
use mathlib.Core.Path.{◌≡◌, refl, sym}
use mathlib.Core.Logic.{◌↔◌, inl, inr}
use mathlib.Core.Bool.{Bool, true, false, ◌||◌}
use mathlib.Core.List.{List, [], ◌∷◌, Memᴰ}
use native.Mathlib.Omega.{arith}
use rep.Base.Tests.{Bool-cases}
use rep.Base.GoMap.{GoMap, has, put, lookup, has-put}

abbrev pub StringSet : Type 0
StringSet = GoMap (Unit {0})

-- for _, entry := range entries { set[entry] = struct{}{} }
unfoldable pub add_all : StringSet → List String → StringSet
add_all set [] = set
add_all set (entry ∷ entries) = add_all (put entry tt set) entries

contains : String → List String → Bool
contains k [] = false
contains k (x ∷ xs) = x == k || contains k xs

contains→Memᴰ : (k : String) (xs : List String) → contains k xs ≡ true → Memᴰ k xs
unfolding contains
contains→Memᴰ k [] h = cc
contains→Memᴰ k (x ∷ xs) h = elim (Bool-cases (x == k)) [
  | inl e ↦ Memᴰ.head (sym ((eq_iff x k).0 e))
  | inr e ↦ Memᴰ.tail (contains→Memᴰ k xs (ground arith))
]

Memᴰ→contains : (k : String) (xs : List String) → Memᴰ k xs → contains k xs ≡ true
unfolding contains
Memᴰ→contains k [] m = elim m [ ]
Memᴰ→contains k (x ∷ xs) (Memᴰ.head e) = ground (arith, eq_iff x k)
Memᴰ→contains k (x ∷ xs) (Memᴰ.tail m) = ground (arith, Memᴰ→contains k xs m)

has-add_all :
    (k : String) (set : StringSet) (xs : List String)
    → has k (add_all set xs) ≡ (contains k xs || has k set)
unfolding contains add_all
has-add_all k set [] = refl
has-add_all k set (x ∷ xs) = ground (arith, has-put x k tt set, has-add_all k (put x tt set) xs)

-- A set made of a slice has exactly the entries of the slice.
pub has-add_all_iff : (k : String) (xs : List String) → (has k (add_all [] xs) ≡ true) ↔ Memᴰ k xs
unfolding has lookup
has-add_all_iff k xs = (
  λ h. contains→Memᴰ k xs (ground (arith, has-add_all k [] xs)),
  λ m. ground (arith, has-add_all k [] xs, Memᴰ→contains k xs m),
)
