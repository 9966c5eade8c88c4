-- ===== src/Cell/Matching.antt =====
-- The filters that choose a cell for work (resources.go): volume drivers and placement tags.
use rep.Base.{
  String, ◌==◌, eq_iff, true, ◌||◌, ◌≡◌, refl, ◌↔◌, ◌⊎◌, inl, inr, List, [], ◌∷◌, Memᴰ, arith,
}
use rep.Base.Tests.{Bool-cases}
use rep.Base.GoMap.{put, has, lookup, has-put}
use rep.Base.Sets.{StringSet, has-add_all_iff}
use rep.Cell.{
  CellState, driver_found, match_drivers, match_volume_drivers, to_set, put_all, union, is_subset,
  match_placement_tags,
}

driver_found→Memᴰ : (k : String) (xs : List String) → driver_found k xs ≡ true → Memᴰ k xs
unfolding driver_found
driver_found→Memᴰ k [] h = cc
driver_found→Memᴰ k (x ∷ xs) h = elim (Bool-cases (k == x)) [
  | inl e ↦ Memᴰ.head ((eq_iff k x).0 e)
  | inr e ↦ Memᴰ.tail (driver_found→Memᴰ k xs (ground arith))
]

Memᴰ→driver_found : (k : String) (xs : List String) → Memᴰ k xs → driver_found k xs ≡ true
unfolding driver_found
Memᴰ→driver_found k [] m = elim m [ ]
Memᴰ→driver_found k (x ∷ xs) (Memᴰ.head e) = ground (arith, eq_iff k x)
Memᴰ→driver_found k (x ∷ xs) (Memᴰ.tail m) = ground (arith, Memᴰ→driver_found k xs m)

-- Every entry of the one list is in the other.
abbrev pub Within : List String → List String → Type 0
Within xs ys = (k : String) → Memᴰ k xs → Memᴰ k ys

match_drivers→Within : (xs ys : List String) → match_drivers xs ys ≡ true → Within xs ys
unfolding match_drivers
match_drivers→Within [] ys h k m = elim m [ ]
match_drivers→Within (x ∷ xs) ys h k (Memᴰ.head e) = driver_found→Memᴰ k ys (rw e (ground arith))
match_drivers→Within (x ∷ xs) ys h k (Memᴰ.tail m) = match_drivers→Within xs ys (ground arith) k m

Within→match_drivers : (xs ys : List String) → Within xs ys → match_drivers xs ys ≡ true
unfolding match_drivers
Within→match_drivers [] ys h = refl
Within→match_drivers (x ∷ xs) ys h =
    rw (Memᴰ→driver_found x ys (h x (Memᴰ.head refl)))
      (Within→match_drivers xs ys (λ k m. h k (Memᴰ.tail m)))

-- A cell takes a list of volume drivers exactly when it has every one of them.
pub match_volume_drivers_iff :
    (c : CellState) (requested : List String)
    → (match_volume_drivers c requested ≡ true) ↔ Within requested c.volume_drivers
unfolding match_volume_drivers
match_volume_drivers_iff c requested = (
  match_drivers→Within requested c.volume_drivers,
  Within→match_drivers requested c.volume_drivers,
)

has-put_all :
    (k : String) (tags set : StringSet) → has k (put_all tags set) ≡ (has k set || has k tags)
unfolding put_all has lookup
has-put_all k tags [] = refl
has-put_all k tags ((j, _) ∷ set) =
    ground (arith, has-put j k tt tags, has-put_all k (put j tt tags) set)

has-union :
    (k : String) (set other : StringSet) → has k (union set other) ≡ (has k set || has k other)
unfolding union has lookup
has-union k set other = ground (arith, has-put_all k (put_all [] set) other, has-put_all k [] set)

-- Inclusion of sets, as lookups tell it.
abbrev Includes : StringSet → StringSet → Type 0
Includes other set = (k : String) → has k set ≡ true → has k other ≡ true

is_subset→Includes : (set other : StringSet) → is_subset set other ≡ true → Includes other set
unfolding is_subset has lookup
is_subset→Includes [] other h k e = cc
is_subset→Includes ((j, _) ∷ set) other h k e =
    ground (arith, eq_iff j k, is_subset→Includes set other (ground arith) k)

Includes→is_subset : (set other : StringSet) → Includes other set → is_subset set other ≡ true
unfolding is_subset has lookup
Includes→is_subset [] other h = refl
Includes→is_subset ((j, _) ∷ set) other h = ground (
  arith,
  eq_iff j j,
  h j (ground (arith, eq_iff j j)),
  Includes→is_subset set other (λ k e. h k (ground (arith, eq_iff j k))),
)

-- The tags that a cell accepts: every tag that it requires is desired, and every desired tag is one
-- that it requires or offers as an option.
pub record Admits (c : CellState) (desired : List String) : Type 0 where
  pub required : Within c.placement_tags desired
  pub known :
      (k : String) → Memᴰ k desired → Memᴰ k c.placement_tags ⊎ Memᴰ k c.optional_placement_tags

has-to_set_iff : (k : String) (xs : List String) → (has k (to_set xs) ≡ true) ↔ Memᴰ k xs
unfolding to_set
has-to_set_iff = has-add_all_iff

tags→Admits :
    (c : CellState) (desired : List String)
    → match_placement_tags c desired ≡ true
    → Admits c desired
unfolding match_placement_tags
tags→Admits c desired h = record {
  required = λ k m.
      (has-to_set_iff k desired).0
        (is_subset→Includes _ _ (ground arith) k ((has-to_set_iff k c.placement_tags).1 m));
  known =
      λ k m. split k m (is_subset→Includes _ _ (ground arith) k ((has-to_set_iff k desired).1 m));
}
  where
    split :
        (k : String)
        → Memᴰ k desired
        → has k (union (to_set c.placement_tags) (to_set c.optional_placement_tags)) ≡ true
        → Memᴰ k c.placement_tags ⊎ Memᴰ k c.optional_placement_tags
    split k m e = elim (Bool-cases (has k (to_set c.placement_tags))) [
      | inl required ↦ inl ((has-to_set_iff k c.placement_tags).0 required)
      | inr other ↦ inr (
          (has-to_set_iff k c.optional_placement_tags).0 (
            ground
              (arith, has-union k (to_set c.placement_tags) (to_set c.optional_placement_tags))))
    ]

Admits→tags :
    (c : CellState) (desired : List String)
    → Admits c desired
    → match_placement_tags c desired ≡ true
unfolding match_placement_tags
Admits→tags c desired a = rw (Includes→is_subset _ _ required) (Includes→is_subset _ _ known)
  where
    required : Includes (to_set desired) (to_set c.placement_tags)
    required k e =
        (has-to_set_iff k desired).1 (a.required k ((has-to_set_iff k c.placement_tags).0 e))

    found :
        (k : String)
        → Memᴰ k c.placement_tags ⊎ Memᴰ k c.optional_placement_tags
        → has k (union (to_set c.placement_tags) (to_set c.optional_placement_tags)) ≡ true
    found k (inl m) = rw has-union (ground (arith, (has-to_set_iff k c.placement_tags).1 m))
    found k (inr m) =
        rw has-union (ground (arith, (has-to_set_iff k c.optional_placement_tags).1 m))

    known :
        Includes
          (union (to_set c.placement_tags) (to_set c.optional_placement_tags))
          (to_set desired)
    known k e = found k (a.known k ((has-to_set_iff k desired).0 e))

-- MatchPlacementTags holds exactly when every tag that the cell requires is desired, and every
-- desired tag is a required or an optional tag of the cell.
pub match_placement_tags_iff :
    (c : CellState) (desired : List String)
    → (match_placement_tags c desired ≡ true) ↔ Admits c desired
match_placement_tags_iff c desired = (tags→Admits c desired, Admits→tags c desired)
