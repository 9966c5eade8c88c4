-- ===== src/AuctionRep/Perform/Refusals.antt =====
-- What becomes of the LRPs that Perform is given: those that it asks containers for, and those that it
-- returns as failed.
use rep.Base.Slices.{All}
use rep.AuctionRep.Perform.Requested.{IsRequestFor}
use rep.AuctionRep.Perform.Translation.{Handled, lrps_to_allocation_request-Handled}
use rep.Base.{◌≡◌, refl, sym, ap, subst, ◌⊎◌, inl, inr, List, [], ◌∷◌, Option, none, some, Memᴰ}
use mathlib.Core.List.Memᴰ
use rep.Base.GoMap.{GoMap, lookup}
use rep.Base.Result.{Result, ok, err, ok-injective}
use rep.Cell.{Lrp}
use rep.Models.{AllocationRequest}
use rep.Services.{Library, ExecutorError, Env, World, allocate_containers}
use rep.AuctionRep.{StackPathMap}
use rep.AuctionRep.Perform.{
  Translated, nothing_translated, append_found, failed_work, not_allocated,
  lrps_to_allocation_request, allocate, perform_lrps,
}
use rep.AuctionRep.Perform.Index.{
  Sourced, IsIndexed, nothing-IsIndexed, after_guids, guids_asked, translation_world,
  lrps-IsIndexed,
}

append_found-kept :
    {W : Type 0} (o : Option W) (rest : List W) (x : W) → Memᴰ x rest → Memᴰ x (append_found o rest)
unfolding append_found
append_found-kept none rest x m = m
append_found-kept (some w) rest x m = Memᴰ.tail m

append_found-found :
    {W : Type 0} (o : Option W) (rest : List W) (x : W) → o ≡ some x → Memᴰ x (append_found o rest)
unfolding append_found
append_found-found none rest x e = cc
append_found-found (some w) rest x e = Memᴰ.head cc

failed_work-Memᴰ :
    {W : Type 0} (by_guid : GoMap W) (failures : List AllocationRequest) (f : AllocationRequest)
    (x : W)
    → Memᴰ f failures
    → lookup f.guid by_guid ≡ some x
    → Memᴰ x (failed_work by_guid failures)
unfolding failed_work
failed_work-Memᴰ by_guid [] f x m e = elim m [ ]
failed_work-Memᴰ by_guid (g ∷ more) f x (Memᴰ.head p) e =
    append_found-found (lookup g.guid by_guid) _ x (rw p at e)
failed_work-Memᴰ by_guid (g ∷ more) f x (Memᴰ.tail m) e =
    append_found-kept (lookup g.guid by_guid) _ x (failed_work-Memᴰ by_guid more f x m e)

-- What becomes of the LRPs, where AllocateContainers was asked for `requests` and gave this answer.
pub record Accounts (lib : Library) (stacks : StackPathMap) (lrps : List Lrp)
    (requests : List AllocationRequest) (answer : Result ExecutorError (List AllocationRequest))
    (result : List Lrp) : Type 0 where
  pub accounted :
      All
        (λ lrp.
          Memᴰ lrp result
          ⊎ ((r : AllocationRequest) × Memᴰ r requests × IsRequestFor lib stacks lrp r))
        lrps
  pub all_failed : (e : ExecutorError) → answer ≡ err e → result ≡ lrps
  pub refused :
      (failures : List AllocationRequest) (f : AllocationRequest)
      → answer ≡ ok failures
      → Memᴰ f failures
      → Memᴰ f requests
      → (lrp : Lrp) × Memᴰ lrp result × Sourced lib stacks lrps requests f.guid lrp

All-weaken : (P Q : Lrp → Type 0) → ((l : Lrp) → P l → Q l) → (ls : List Lrp) → All P ls → All Q ls
All-weaken P Q f [] h = tt
All-weaken P Q f (l ∷ ls) h = (f l h.0, All-weaken P Q f ls h.1)

All-itself : (ls : List Lrp) (P : Lrp → Type 0) → ((l : Lrp) → Memᴰ l ls → P l) → All P ls
All-itself [] P f = tt
All-itself (l ∷ ls) P f = (f l (Memᴰ.head refl), All-itself ls P (λ k m. f k (Memᴰ.tail m)))

not_allocated-Accounts :
    (lib : Library) (stacks : StackPathMap) (lrps : List Lrp) (t : Translated Lrp)
    (answer : Result ExecutorError (List AllocationRequest))
    → All (Handled lib stacks t) lrps
    → IsIndexed lib stacks lrps t
    → Accounts lib stacks lrps t.requests answer (not_allocated lrps t answer)
unfolding not_allocated
not_allocated-Accounts lib stacks lrps t (err x) handled indexed = record {
  accounted = All-itself lrps _ (λ l m. inl m);
  all_failed = λ e h. refl;
  refused = λ fs f h m n. cc;
}
not_allocated-Accounts lib stacks lrps t (ok fs) handled indexed = record {
  accounted =
      All-weaken (Handled lib stacks t) _
        (λ l h. elim h [
          | inl m ↦ inl (Memᴰ.append_left (failed_work t.by_guid fs) m)
          | inr made ↦ inr made
        ])
        lrps handled;
  all_failed = λ e h. cc;
  refused = λ failures f h m made.
      let (x, found) = indexed.known f made in
      (
        x,
        Memᴰ.append_right t.untranslated (
            failed_work-Memᴰ t.by_guid fs f x (subst (Memᴰ f) (ok-injective failures fs (sym h)) m)
              found),
        indexed.sourced f.guid x found,
      );
}

-- The part of Perform for LRPs, where there are any, generates a guid for each of them and then calls
-- AllocateContainers once and nothing else. Each LRP is returned as failed, or one of the requests of this
-- call is for it, with its resources, the path of its rootfs and tags that name its key. If the executor
-- answers with an error, all of the LRPs are returned as failed; and for every request that it refuses, an
-- LRP is returned as failed that this or another request with the same guid is for.
pub perform_lrps-Returned :
    {S : Type 0} (env : Env S) (stacks : StackPathMap) (lrp : Lrp) (more : List Lrp) (w : World S)
    → let all = lrp ∷ more in
      (requests : List AllocationRequest) × ((perform_lrps env stacks all w).1.calls
        ≡ allocate_containers requests ∷ guids_asked all w.calls)
      × Accounts env.lib stacks all requests
          (env.answer (allocate_containers requests) (after_guids env all w.outside)).0
          (perform_lrps env stacks all w).0
unfolding perform_lrps allocate
perform_lrps-Returned env stacks lrp more w =
    let all = lrp ∷ more in
    let (t, before) = lrps_to_allocation_request env stacks nothing_translated all w in
    let same = translation_world env stacks all nothing_translated w in
    (
      t.requests,
      ap (λ (v : World _). allocate_containers t.requests ∷ v.calls) same,
      subst
          (λ (v : World _).
            Accounts env.lib stacks all t.requests
              (env.answer (allocate_containers t.requests) v.outside).0
              (not_allocated all t (env.answer (allocate_containers t.requests) before.outside).0))
          same
          (not_allocated-Accounts env.lib stacks all t _
            (lrps_to_allocation_request-Handled env stacks all w).0
            (lrps-IsIndexed env stacks all all nothing_translated w (λ l m. m)
              (nothing-IsIndexed env.lib stacks all))),
    )
