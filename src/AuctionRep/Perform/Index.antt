-- ===== src/AuctionRep/Perform/Index.antt =====
-- The index by guid of the LRPs that Perform asks containers for (lrpMap), and the calls
-- for their guids.
use mathlib.Core.Option.{some-injective}
use rep.AuctionRep.Perform.Requested.{IsRequestFor, lrp_request-IsRequestFor}
use rep.Base.{
  String, ◌==◌, eq_iff, ◌≡◌, refl, sym, ap, subst, ◌⊎◌, inl, inr, List, [], ◌∷◌, ◌++◌, Option, none,
  some, Memᴰ, arith,
}
use mathlib.Core.List.Memᴰ
use rep.Base.Tests.{Bool-cases}
use rep.Base.GoMap.{GoMap, lookup, put, lookup-put}
use rep.Base.Result.{Result, ok, err}
use rep.Cell.{Lrp}
use rep.Models.{AllocationRequest}
use rep.Services.{Library, Call, Env, World, ask, generate_instance_guid}
use rep.AuctionRep.{StackPathMap, PathError, path_for_root_fs}
use rep.AuctionRep.Perform.{
  Translated, nothing_translated, lrp_request, translate_at, translate_lrp,
  lrps_to_allocation_request,
}

-- The LRP is one of those to perform, and one of the requests, with this guid, is for it.
abbrev pub Sourced :
    Library → StackPathMap → List Lrp → List AllocationRequest → String → Lrp → Type 0
Sourced lib stacks all requests g lrp =
    Memᴰ lrp all
    × ((r : AllocationRequest) × Memᴰ r requests × (r.guid ≡ g) × IsRequestFor lib stacks lrp r)

-- Every request has an LRP under its guid, and every LRP stands under the guid of a request for it.
pub record IsIndexed (lib : Library) (stacks : StackPathMap) (all : List Lrp) (t : Translated Lrp)
    : Type 0 where
  pub known :
      (r : AllocationRequest) → Memᴰ r t.requests → (x : Lrp) × (lookup r.guid t.by_guid ≡ some x)
  pub sourced :
      (g : String) (x : Lrp) → lookup g t.by_guid ≡ some x → Sourced lib stacks all t.requests g x

put-known :
    {W : Type 0} (k g : String) (new : W) (m : GoMap W)
    → (k ≡ g) ⊎ ((x : W) × (lookup g m ≡ some x))
    → (x : W) × (lookup g (put k new m) ≡ some x)
put-known k g new m (inl same) = (new, ground (arith, (eq_iff k g).1 same, lookup-put k g new m))
put-known k g new m (inr (x, e)) = elim (Bool-cases (k == g)) [
  | inl same ↦ (new, ground (arith, lookup-put k g new m))
  | inr other ↦ (x, ground (arith, lookup-put k g new m))
]

-- A member of a list with one more element is that element or was there before.
Memᴰ-last :
    {A : Type 0} (a new : A) (old : List A) → Memᴰ a (old ++ new ∷ []) → (new ≡ a) ⊎ Memᴰ a old
Memᴰ-last a new [] (Memᴰ.head e) = inl (sym e)
Memᴰ-last a new [] (Memᴰ.tail m) = elim m [ ]
Memᴰ-last a new (b ∷ old) (Memᴰ.head e) = inr (Memᴰ.head e)
Memᴰ-last a new (b ∷ old) (Memᴰ.tail m) = elim (Memᴰ-last a new old m) [
  | inl same ↦ inl same
  | inr before ↦ inr (Memᴰ.tail before)
]

module _ (lib : Library) (stacks : StackPathMap) (all : List Lrp) where
  requested-IsIndexed :
      (t : Translated Lrp) (lrp : Lrp) (new : AllocationRequest)
      → Memᴰ lrp all
      → IsRequestFor lib stacks lrp new
      → IsIndexed lib stacks all t
      → IsIndexed lib stacks all
          (record t { requests = t.requests ++ new ∷ []; by_guid = put new.guid lrp t.by_guid })
  requested-IsIndexed t lrp new m for_lrp h = record {
    known = λ r n. put-known new.guid r.guid lrp t.by_guid (elim (Memᴰ-last r new t.requests n) [
      | inl same ↦ inl (ap (λ (x : AllocationRequest). x.guid) same)
      | inr before ↦ inr (h.known r before)
    ]);
    sourced = λ g x found. elim (Bool-cases (new.guid == g)) [
      | inl same ↦
          let e =
            some-injective {A = Lrp} lrp x (ground (arith, lookup-put new.guid g lrp t.by_guid)) in
          subst (Sourced lib stacks all (t.requests ++ new ∷ []) g) e (
            m,
            (
              new,
              Memᴰ.append_right t.requests (Memᴰ.head refl),
              (eq_iff new.guid g).0 same,
              for_lrp,
            ),
          )
      | inr other ↦
          let (n, (r, r_made, r_guid, r_for)) =
            h.sourced g x (ground (arith, lookup-put new.guid g lrp t.by_guid)) in
          (n, (r, Memᴰ.append_left (new ∷ []) r_made, r_guid, r_for))
    ];
  }

  translate_at-IsIndexed :
      (t : Translated Lrp) (lrp : Lrp) (guid : String) (path : Result PathError String)
      → path_for_root_fs lib lrp.constraint.root_fs stacks ≡ path
      → Memᴰ lrp all
      → IsIndexed lib stacks all t
      → IsIndexed lib stacks all (translate_at lib t lrp guid path)
  unfolding translate_at
  translate_at-IsIndexed t lrp guid (err e) p m h = record { known = h.known; sourced = h.sourced }
  translate_at-IsIndexed t lrp guid (ok path) p m h =
      requested-IsIndexed t lrp (lrp_request lib lrp guid path) m
        (lrp_request-IsRequestFor lib stacks lrp guid path p) h

  translate_lrp-IsIndexed :
      (t : Translated Lrp) (lrp : Lrp) (generated : Option String)
      → Memᴰ lrp all
      → IsIndexed lib stacks all t
      → IsIndexed lib stacks all (translate_lrp lib stacks t lrp generated)
  unfolding translate_lrp
  translate_lrp-IsIndexed t lrp none m h = record { known = h.known; sourced = h.sourced }
  translate_lrp-IsIndexed t lrp (some guid) m h = translate_at-IsIndexed t lrp guid _ refl m h

pub nothing-IsIndexed :
    (lib : Library) (stacks : StackPathMap) (all : List Lrp)
    → IsIndexed lib stacks all nothing_translated
unfolding lookup
nothing-IsIndexed lib stacks all = record {
  known = λ r m. elim m [ ];
  sourced = λ g x found. absurd (ground (arith, found));
}

-- The outside world once a guid was generated for each LRP, and the calls for these.
abbrev pub after_guids : {S : Type 0} → Env S → List Lrp → S → S
after_guids env [] s = s
after_guids env (lrp ∷ more) s = after_guids env more (env.answer generate_instance_guid s).1

abbrev pub guids_asked : List Lrp → List Call → List Call
guids_asked [] calls = calls
guids_asked (lrp ∷ more) calls = guids_asked more (generate_instance_guid ∷ calls)

module _ {S : Type 0} (env : Env S) (stacks : StackPathMap) where
  pub translation_world :
      (lrps : List Lrp) (t : Translated Lrp) (w : World S)
      → (lrps_to_allocation_request env stacks t lrps w).1
        ≡ record { outside = after_guids env lrps w.outside; calls = guids_asked lrps w.calls }
  unfolding lrps_to_allocation_request
  translation_world [] t w = refl
  translation_world (lrp ∷ more) t w =
      translation_world more
        (translate_lrp env.lib stacks t lrp (env.answer generate_instance_guid w.outside).0)
        (ask env generate_instance_guid w).1

  pub lrps-IsIndexed :
      (all lrps : List Lrp) (t : Translated Lrp) (w : World S)
      → ((l : Lrp) → Memᴰ l lrps → Memᴰ l all)
      → IsIndexed env.lib stacks all t
      → IsIndexed env.lib stacks all (lrps_to_allocation_request env stacks t lrps w).0
  unfolding lrps_to_allocation_request
  lrps-IsIndexed all [] t w among h = h
  lrps-IsIndexed all (lrp ∷ more) t w among h =
      lrps-IsIndexed all more
        (translate_lrp env.lib stacks t lrp (env.answer generate_instance_guid w.outside).0)
        (ask env generate_instance_guid w).1 (λ l m. among l (Memᴰ.tail m))
        (translate_lrp-IsIndexed env.lib stacks all t lrp _ (among lrp (Memᴰ.head refl)) h)
