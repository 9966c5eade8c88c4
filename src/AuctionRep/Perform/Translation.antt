-- ===== src/AuctionRep/Perform/Translation.antt =====
-- The translation of LRPs into allocation requests (lrpsToAllocationRequest), and their tags.
use rep.Base.{
  ◌+◌, String, true, ◌≡◌, refl, ◌⊎◌, inl, inr, List, [], ◌∷◌, Option, none, some, Memᴰ, arith,
}
use mathlib.Core.List.Memᴰ
use rep.Base.Slices.{length, length-append, All}
use rep.Base.Int.{half32, InWord, int32, wrap-InWord}
use rep.Base.GoMap.{GoMap, lookup, put}
use rep.Base.Result.{Result, ok, err}
use rep.Cell.{ActualLrpKey, Lrp}
use rep.Models.{AllocationRequest}
use rep.Conversion.Tags.{
  tag, tag_of, actual_lrp_key_from_tags, lifecycle_tag, lrp_lifecycle, instance_guid_tag,
  process_index_tag, process_guid_tag, domain_tag,
}
use rep.Services.{Library, Env, World, ask, generate_instance_guid}
use rep.AuctionRep.{StackPathMap, PathError, path_for_root_fs}
use rep.AuctionRep.Perform.Requested.{IsRequestFor, lrp_request-IsRequestFor}
use rep.AuctionRep.Perform.{
  Translated, nothing_translated, untranslated_too, lrp_request, translate_at, translate_lrp,
  lrps_to_allocation_request,
}

-- A key whose parts stand in the tags is read back.
key_from_parts :
    (lib : Library) (tags : GoMap String) (key : ActualLrpKey)
    → tag_of tags process_index_tag ≡ lib.itoa key.index
    → tag_of tags process_guid_tag ≡ key.process_guid
    → tag_of tags domain_tag ≡ key.domain
    → lib.atoi (lib.itoa key.index) ≡ some key.index
    → int32 key.index ≡ key.index
    → lib.key_valid key ≡ true
    → actual_lrp_key_from_tags lib (some tags) ≡ ok key
unfolding actual_lrp_key_from_tags
key_from_parts lib tags key index guid domain parses word valid = ground arith

-- The request of an LRP carries what the rep reads back from its container: the lifecycle of an LRP,
-- the LRP's own key, if its index is an int32 that strconv prints and parses back and the key is
-- valid, and as instance guid the guid of the container.
pub lrp_request-tags :
    (lib : Library) (lrp : Lrp) (instance_guid path : String)
    → lib.atoi (lib.itoa lrp.key.index) ≡ some lrp.key.index
    → InWord half32 lrp.key.index
    → lib.key_valid lrp.key ≡ true
    → let req = lrp_request lib lrp instance_guid path in
      (tag (some req.tags) lifecycle_tag ≡ lrp_lifecycle)
      × (actual_lrp_key_from_tags lib (some req.tags) ≡ ok lrp.key)
      × (tag (some req.tags) instance_guid_tag ≡ req.guid)
unfolding lrp_request tag put lookup
lrp_request-tags lib lrp instance_guid path parses word valid = (
  refl,
  key_from_parts lib _ lrp.key refl refl refl parses (wrap-InWord half32 lrp.key.index word) valid,
  refl,
)

-- The LRP is among those returned as untranslated, or a container is requested for it.
abbrev pub Handled : Library → StackPathMap → Translated Lrp → Lrp → Type 0
Handled lib stacks t lrp =
    Memᴰ lrp t.untranslated
    ⊎ ((r : AllocationRequest) × Memᴰ r t.requests × IsRequestFor lib stacks lrp r)

-- Nothing that was translated or returned is dropped later.
record Grows (t u : Translated Lrp) : Type 0 where
  requests : (r : AllocationRequest) → Memᴰ r t.requests → Memᴰ r u.requests
  untranslated : (l : Lrp) → Memᴰ l t.untranslated → Memᴰ l u.untranslated

Grows-refl : (t : Translated Lrp) → Grows t t
Grows-refl t = record { requests = λ r m. m; untranslated = λ l m. m }

Grows-trans : {t u v : Translated Lrp} → Grows t u → Grows u v → Grows t v
Grows-trans p q = record {
  requests = λ r m. q.requests r (p.requests r m);
  untranslated = λ l m. q.untranslated l (p.untranslated l m);
}

module _ (lib : Library) (stacks : StackPathMap) where
  Handled-Grows :
      (t u : Translated Lrp) (lrp : Lrp)
      → Grows t u
      → Handled lib stacks t lrp
      → Handled lib stacks u lrp
  Handled-Grows t u lrp g (inl m) = inl (g.untranslated lrp m)
  Handled-Grows t u lrp g (inr (r, m, for_lrp)) = inr (r, g.requests r m, for_lrp)

  -- What one round of the loop does: its LRP is handled, nothing is dropped, and one entry is added.
  record Round (t : Translated Lrp) (lrp : Lrp) (u : Translated Lrp) : Type 0 where
    handled : Handled lib stacks u lrp
    grows : Grows t u
    added :
        length u.requests + length u.untranslated ≡ length t.requests + length t.untranslated + 1

  untranslated-Round : (t : Translated Lrp) (lrp : Lrp) → Round t lrp (untranslated_too t lrp)
  untranslated-Round t lrp = record {
    handled = inl (Memᴰ.append_right t.untranslated (Memᴰ.head refl));
    grows = record { requests = λ r m. m; untranslated = λ l m. Memᴰ.append_left (lrp ∷ []) m };
    added = omega (arith, length-append t.untranslated (lrp ∷ []));
  }

  translate_at-Round :
      (t : Translated Lrp) (lrp : Lrp) (guid : String) (path : Result PathError String)
      → path_for_root_fs lib lrp.constraint.root_fs stacks ≡ path
      → Round t lrp (translate_at lib t lrp guid path)
  unfolding translate_at
  translate_at-Round t lrp guid (err x) e = untranslated-Round t lrp
  translate_at-Round t lrp guid (ok path) e = record {
    handled = inr (
      lrp_request lib lrp guid path,
      Memᴰ.append_right t.requests (Memᴰ.head refl),
      lrp_request-IsRequestFor lib stacks lrp guid path e,
    );
    grows = record {
      requests = λ r m. Memᴰ.append_left (lrp_request lib lrp guid path ∷ []) m;
      untranslated = λ l m. m;
    };
    added = omega (arith, length-append t.requests (lrp_request lib lrp guid path ∷ []));
  }

  translate_lrp-Round :
      (t : Translated Lrp) (lrp : Lrp) (generated : Option String)
      → Round t lrp (translate_lrp lib stacks t lrp generated)
  unfolding translate_lrp
  translate_lrp-Round t lrp none = untranslated-Round t lrp
  translate_lrp-Round t lrp (some guid) = translate_at-Round t lrp guid _ refl

module _ {S : Type 0} (env : Env S) (stacks : StackPathMap) where
  loop : Translated Lrp → List Lrp → World S → Translated Lrp
  loop t lrps w = (lrps_to_allocation_request env stacks t lrps w).0

  abbrev next : Translated Lrp → Lrp → World S → Translated Lrp
  next t lrp w = translate_lrp env.lib stacks t lrp (env.answer generate_instance_guid w.outside).0

  loop-Grows : (lrps : List Lrp) (t : Translated Lrp) (w : World S) → Grows t (loop t lrps w)
  unfolding loop lrps_to_allocation_request
  loop-Grows [] t w = Grows-refl t
  loop-Grows (lrp ∷ more) t w =
      Grows-trans (translate_lrp-Round env.lib stacks t lrp _).grows
        (loop-Grows more (next t lrp w) (ask env generate_instance_guid w).1)

  loop-Handled :
      (lrps : List Lrp) (t : Translated Lrp) (w : World S)
      → All (Handled env.lib stacks (loop t lrps w)) lrps
  unfolding loop lrps_to_allocation_request
  loop-Handled [] t w = tt
  loop-Handled (lrp ∷ more) t w =
      let w' = (ask env generate_instance_guid w).1 in
      (
        Handled-Grows env.lib stacks _ _ lrp (loop-Grows more (next t lrp w) w')
            (translate_lrp-Round env.lib stacks t lrp _).handled,
        loop-Handled more (next t lrp w) w',
      )

  loop-length :
      (lrps : List Lrp) (t : Translated Lrp) (w : World S)
      → length (loop t lrps w).requests + length (loop t lrps w).untranslated
        ≡ length t.requests + length t.untranslated + length lrps
  unfolding loop lrps_to_allocation_request
  loop-length [] t w = omega arith
  loop-length (lrp ∷ more) t w = omega (
    arith,
    loop-length more (next t lrp w) (ask env generate_instance_guid w).1,
    (translate_lrp-Round env.lib stacks t lrp
        (env.answer generate_instance_guid w.outside).0).added,
  )

  -- The translation loses no LRP and duplicates none: whatever guids are generated and rootfs paths
  -- are found, each LRP is returned as untranslated or has a container requested for it, and requests and
  -- untranslated LRPs are together as many as the LRPs. The request has the memory, disk and pids of the
  -- LRP, the path of its rootfs (the directory of its stack where it is preloaded, with the scheme and the
  -- query around it where it is preloaded with layers, and the rootfs itself otherwise), and tags with
  -- its lifecycle, domain, process guid and index, and as the instance the guid of the request.
  pub lrps_to_allocation_request-Handled :
      (lrps : List Lrp) (w : World S)
      → let t = (lrps_to_allocation_request env stacks nothing_translated lrps w).0 in
        All (Handled env.lib stacks t) lrps
        × (length t.requests + length t.untranslated ≡ length lrps)
  unfolding loop
  lrps_to_allocation_request-Handled lrps w =
      (loop-Handled lrps nothing_translated w, omega (arith, loop-length lrps nothing_translated w))
