-- ===== src/Cell/Problems.antt =====
-- The text of the error of ResourceMatch (InsufficientResourcesError.Error of resources.go).
use Prim.Native.Char.{Char, code}
use Prim.Native.String.{String, [], ◌∷◌, ◌++◌}
use mathlib.Core.List.{List, [] as []ᴸ, ◌∷◌ as ◌∷ᴸ◌}
use mathlib.Core.List.{Permᴰ}
use mathlib.Core.List.Permᴰ
use text.Mathlib.TextEquality.{codes_equal}
use rep.Base.{Bool, true, false, ◌≡◌, refl, ap, ◌∙◌, inl, inr, ◌⊎◌, arith}
use rep.Base.Tests.{ltb, if◌then◌else◌, Bool-cases}

-- The order of texts, by the numbers of their characters.
unfoldable pub le_text : String → String → Bool
le_text [] t = true
le_text (c ∷ s) [] = false
le_text (c ∷ s) (d ∷ t) =
    let rest = le_text s t in
    if ltb (code c) (code d) then true else if ltb (code d) (code c) then false else rest

unfoldable pub insert : String → List String → List String
insert x []ᴸ = x ∷ᴸ []ᴸ
insert x (y ∷ᴸ ys) = let rest = insert x ys in if le_text x y then x ∷ᴸ y ∷ᴸ ys else y ∷ᴸ rest

-- sort.Strings
unfoldable pub sort_strings : List String → List String
unfolding insert
sort_strings []ᴸ = []ᴸ
sort_strings (x ∷ᴸ xs) = insert x (sort_strings xs)

le_text_total : (s t : String) → (le_text s t ≡ true) ⊎ (le_text t s ≡ true)
unfolding le_text
le_text_total [] t = inl refl
le_text_total (c ∷ s) [] = inr refl
le_text_total (c ∷ s) (d ∷ t) = ground (arith, le_text_total s t)

le_text_trans : (s t u : String) → le_text s t ≡ true → le_text t u ≡ true → le_text s u ≡ true
unfolding le_text
le_text_trans [] t u h k = refl
le_text_trans (c ∷ s) [] u h k = cc
le_text_trans (c ∷ s) (d ∷ t) [] h k = cc
le_text_trans (c ∷ s) (d ∷ t) (e ∷ u) h k = elim (Bool-cases (le_text s t)) [
  | inl st ↦ elim (Bool-cases (le_text t u)) [
    | inl tu ↦ ground (arith, le_text_trans s t u st tu)
    | inr fails ↦ ground (arith, fails)
  ]
  | inr fails ↦ ground (arith, fails)
]

same_code : (c d : Char) → code c ≡ code d → c ≡ d
same_code c d h = codes_equal c d (ground (arith, h))

le_text_antisym : (s t : String) → le_text s t ≡ true → le_text t s ≡ true → s ≡ t
unfolding le_text
le_text_antisym [] [] h k = refl
le_text_antisym [] (d ∷ t) h k = cc
le_text_antisym (c ∷ s) [] h k = cc
le_text_antisym (c ∷ s) (d ∷ t) h k =
    let same : code c ≡ code d = ground (arith, h, k) in
    let rest = le_text_antisym s t (ground (arith, h, k, same)) (ground (arith, h, k, same)) in
    λ i. same_code c d same i ∷ rest i

-- Two entries can be inserted in either order.
insert-insert : (x y : String) (l : List String) → insert x (insert y l) ≡ insert y (insert x l)
unfolding insert
insert-insert x y []ᴸ = ground (arith, le_text_total x y, le_text_antisym x y)
insert-insert x y (z ∷ᴸ l) = ground (
  arith,
  le_text_total x y,
  le_text_antisym x y,
  le_text_trans x y z,
  le_text_trans y x z,
  insert-insert x y l,
)

-- The sorted keys do not depend on the order in which they come.
sort_strings-Permᴰ : {xs ys : List String} → Permᴰ xs ys → sort_strings xs ≡ sort_strings ys
unfolding sort_strings
sort_strings-Permᴰ Permᴰ.nil = refl
sort_strings-Permᴰ (Permᴰ.cons {b = b} same perm) = λ i. insert (same i) (sort_strings-Permᴰ perm i)
sort_strings-Permᴰ (Permᴰ.swap {a = a} {b = b} {l = l} p q) =
    insert-insert a b (sort_strings l) ∙ (λ i. insert (q i) (insert (p i) (sort_strings l)))
sort_strings-Permᴰ (Permᴰ.trans p q) = sort_strings-Permᴰ p ∙ sort_strings-Permᴰ q

-- strings.Join(keys, ", ")
unfoldable pub join : List String → String
join []ᴸ = ""
join (x ∷ᴸ []ᴸ) = x
join (x ∷ᴸ y ∷ᴸ more) = x ++ ", " ++ join (y ∷ᴸ more)

-- InsufficientResourcesError.Error, for the keys in the order in which the map is ranged over.
unfoldable pub error_text : List String → String
unfolding sort_strings join
error_text []ᴸ = "insufficient resources"
error_text (key ∷ᴸ keys) = "insufficient resources: " ++ join (sort_strings (key ∷ᴸ keys))

-- The text of the error is the same in whatever order the map of problems is ranged over.
pub error_text-Permᴰ :
    {keys other : List String} → Permᴰ keys other → error_text keys ≡ error_text other
unfolding error_text
error_text-Permᴰ {keys = []ᴸ} {other = []ᴸ} perm = refl
error_text-Permᴰ {keys = []ᴸ} {other = y ∷ᴸ ys} perm = let h = Permᴰ.length-eq perm in cc
error_text-Permᴰ {keys = x ∷ᴸ xs} {other = []ᴸ} perm = let h = Permᴰ.length-eq perm in cc
error_text-Permᴰ {keys = x ∷ᴸ xs} {other = y ∷ᴸ ys} perm =
    ap (λ sorted. "insufficient resources: " ++ join sorted) (sort_strings-Permᴰ perm)
