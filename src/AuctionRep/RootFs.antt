-- ===== src/AuctionRep/RootFs.antt =====
-- MatchRootFS (resources.go) over the providers of the rep, beside PathForRootFS.
use rep.Base.{
  String, ◌==◌, eq_iff, true, ◌≡◌, refl, sym, ◌↔◌, ◌⊎◌, inl, inr, List, [], ◌∷◌, some, Memᴰ, arith,
}
use Prim.Native.String.{◌++◌}
use rep.Base.Tests.{Bool-cases, Option-cases}
use rep.Base.GoMap.{lookup, put, lookup-put}
use rep.Base.Sets.{has-add_all_iff}
use rep.Base.Result.{ok}
use rep.Rootfs.{
  Url, RootFsProvider, arbitrary_provider, RootFsProviders, provider_match, providers_match,
  new_fixed_set_root_fs_provider,
}
use rep.Cell.{CellState, match_root_fs}
use rep.Conversion.Tags.{preloaded_root_fs_scheme, preloaded_oci_root_fs_scheme}
use rep.Services.{Library}
use rep.AuctionRep.{StackPathMap, put_arbitrary, stacks_of, root_fs_providers, path_for_root_fs}

lookup-some_of_stack :
    (k : String) (m : StackPathMap)
    → Memᴰ k (stacks_of m)
    → (path : String) × (lookup k m ≡ some path)
unfolding stacks_of lookup
lookup-some_of_stack k [] h = elim h [ ]
lookup-some_of_stack k ((j, p) ∷ m) (Memᴰ.head e) = (p, ground (arith, eq_iff j k))
lookup-some_of_stack k ((j, p) ∷ m) (Memᴰ.tail h) =
    let (q, found) = lookup-some_of_stack k m h in
    elim (Bool-cases (j == k)) [ inl e ↦ (p, rw e refl) | inr e ↦ (q, rw e found) ]

-- The two schemes of preloaded root file systems.
abbrev pub IsPreloaded : Url → Type 0
IsPreloaded url =
    (url.scheme ≡ preloaded_root_fs_scheme) ⊎ (url.scheme ≡ preloaded_oci_root_fs_scheme)

put_arbitrary-keeps :
    (scheme : String) (providers : RootFsProviders) (xs : List String)
    → lookup scheme providers ≡ some arbitrary_provider
    → lookup scheme (put_arbitrary providers xs) ≡ some arbitrary_provider
unfolding put_arbitrary
put_arbitrary-keeps scheme providers [] h = h
put_arbitrary-keeps scheme providers (x ∷ xs) h =
    put_arbitrary-keeps scheme (put x arbitrary_provider providers) xs
      (ground (arith, lookup-put x scheme arbitrary_provider providers))

Memᴰ→put_arbitrary :
    (scheme : String) (providers : RootFsProviders) (xs : List String)
    → Memᴰ scheme xs
    → lookup scheme (put_arbitrary providers xs) ≡ some arbitrary_provider
unfolding put_arbitrary
Memᴰ→put_arbitrary scheme providers [] m = elim m [ ]
Memᴰ→put_arbitrary scheme providers (x ∷ xs) (Memᴰ.head e) =
    put_arbitrary-keeps scheme (put x arbitrary_provider providers) xs
      (ground (arith, eq_iff x scheme, lookup-put x scheme arbitrary_provider providers))
Memᴰ→put_arbitrary scheme providers (x ∷ xs) (Memᴰ.tail m) =
    Memᴰ→put_arbitrary scheme (put x arbitrary_provider providers) xs m

put_arbitrary→Memᴰ :
    (scheme : String) (providers : RootFsProviders) (xs : List String) (provider : RootFsProvider)
    → lookup scheme (put_arbitrary providers xs) ≡ some provider
    → Memᴰ scheme xs ⊎ (lookup scheme providers ≡ some provider)
unfolding put_arbitrary
put_arbitrary→Memᴰ scheme providers [] provider h = inr h
put_arbitrary→Memᴰ scheme providers (x ∷ xs) provider h =
    here (put_arbitrary→Memᴰ scheme (put x arbitrary_provider providers) xs provider h)
  where
    here :
        Memᴰ scheme xs ⊎ (lookup scheme (put x arbitrary_provider providers) ≡ some provider)
        → Memᴰ scheme (x ∷ xs) ⊎ (lookup scheme providers ≡ some provider)
    here (inl m) = inl (Memᴰ.tail m)
    here (inr e) = elim (Bool-cases (x == scheme)) [
      | inl same ↦ inl (Memᴰ.head (sym ((eq_iff x scheme).0 same)))
      | inr other ↦ inr (ground (arith, lookup-put x scheme arbitrary_provider providers))
    ]

module _ (preloaded : StackPathMap) (arbitrary : List String) where
  stacks_provider : RootFsProvider
  stacks_provider = new_fixed_set_root_fs_provider (stacks_of preloaded)

  provider_of_preloaded :
      (url : Url)
      → IsPreloaded url
      → lookup url.scheme (root_fs_providers preloaded arbitrary) ≡ some stacks_provider
  unfolding root_fs_providers stacks_provider
  provider_of_preloaded url h =
      rw (lookup-put, lookup-put)
        (ground (
          arith,
          eq_iff preloaded_oci_root_fs_scheme url.scheme,
          eq_iff preloaded_root_fs_scheme url.scheme,
        ))

  providers-preloaded :
      (url : Url)
      → IsPreloaded url
      → providers_match (root_fs_providers preloaded arbitrary) url
        ≡ provider_match stacks_provider url
  unfolding providers_match
  providers-preloaded url h = ground (arith, provider_of_preloaded url h)

  provider_match-stacks :
      (url : Url)
      → (provider_match stacks_provider url ≡ true) ↔ Memᴰ url.path_opaque (stacks_of preloaded)
  unfolding provider_match stacks_provider new_fixed_set_root_fs_provider
  provider_match-stacks url = has-add_all_iff url.path_opaque (stacks_of preloaded)

  -- The providers of the rep match a preloaded root file system, of either scheme, exactly when its
  -- stack is preloaded, whatever schemes are declared arbitrary.
  pub providers_match-preloaded_iff :
      (url : Url)
      → IsPreloaded url
      → (providers_match (root_fs_providers preloaded arbitrary) url ≡ true)
        ↔ Memᴰ url.path_opaque (stacks_of preloaded)
  providers_match-preloaded_iff url h = rw (providers-preloaded url h) (provider_match-stacks url)

  other_provider :
      (url : Url)
      → ¬ IsPreloaded url
      → lookup url.scheme (root_fs_providers preloaded arbitrary)
        ≡ lookup url.scheme (put_arbitrary [] arbitrary)
  unfolding root_fs_providers
  other_provider url h =
      rw (lookup-put, lookup-put)
        (ground (
          arith,
          eq_iff preloaded_oci_root_fs_scheme url.scheme,
          eq_iff preloaded_root_fs_scheme url.scheme,
        ))

  match→Memᴰ :
      (url : Url)
      → ¬ IsPreloaded url
      → providers_match (root_fs_providers preloaded arbitrary) url ≡ true
      → Memᴰ url.scheme arbitrary
  unfolding providers_match lookup
  match→Memᴰ url h m = elim (Option-cases (lookup url.scheme (put_arbitrary [] arbitrary))) [
    | inl missing ↦ absurd (ground (arith, other_provider url h))
    | inr (provider, found) ↦ elim (put_arbitrary→Memᴰ url.scheme [] arbitrary provider found) [
      | inl there ↦ there
      | inr e ↦ cc
    ]
  ]

  Memᴰ→match :
      (url : Url)
      → ¬ IsPreloaded url
      → Memᴰ url.scheme arbitrary
      → providers_match (root_fs_providers preloaded arbitrary) url ≡ true
  unfolding providers_match provider_match
  Memᴰ→match url h m =
      ground (arith, other_provider url h, Memᴰ→put_arbitrary url.scheme [] arbitrary m)

  -- The providers of the rep match a root file system of any other scheme exactly when the scheme is
  -- one of the arbitrary ones.
  pub providers_match-arbitrary_iff :
      (url : Url)
      → ¬ IsPreloaded url
      → (providers_match (root_fs_providers preloaded arbitrary) url ≡ true)
        ↔ Memᴰ url.scheme arbitrary
  providers_match-arbitrary_iff url h = (match→Memᴰ url h, Memᴰ→match url h)

  path_of_stack :
      (lib : Library) (root_fs : String) (url : Url)
      → lib.parse_url root_fs ≡ some url
      → (IsPreloaded url → (path : String) × (lookup url.path_opaque preloaded ≡ some path))
      → (path : String) × (path_for_root_fs lib root_fs preloaded ≡ ok path)
  unfolding path_for_root_fs
  path_of_stack lib root_fs url parsed stack = elim (Bool-cases (root_fs == "")) [
    | inl empty ↦ (root_fs, ground arith)
    | inr nonempty ↦ elim (Bool-cases (url.scheme == preloaded_root_fs_scheme)) [
      | inl first ↦
          let (path, found) = stack (inl ((eq_iff url.scheme preloaded_root_fs_scheme).0 first)) in
          (path, ground arith)
      | inr other ↦ elim (Bool-cases (url.scheme == preloaded_oci_root_fs_scheme)) [
        | inl second ↦
            let (path, found) =
              stack (inr ((eq_iff url.scheme preloaded_oci_root_fs_scheme).0 second)) in
            (url.scheme ++ ":" ++ path ++ "?" ++ url.raw_query, ground arith)
        | inr neither ↦ (root_fs, ground arith)
      ]
    ]
  ]

  -- A cell with the providers of the rep that matches a root file system can translate it into a path:
  -- work that the auctioneer places by MatchRootFS is never refused by PathForRootFS.
  pub match_root_fs-path :
      (lib : Library) (c : CellState) (root_fs : String)
      → c.root_fs_providers ≡ root_fs_providers preloaded arbitrary
      → match_root_fs lib.parse_url c root_fs ≡ true
      → (path : String) × (path_for_root_fs lib root_fs preloaded ≡ ok path)
  unfolding match_root_fs
  match_root_fs-path lib c root_fs e m = elim (Option-cases (lib.parse_url root_fs)) [
    | inl bad ↦ absurd (ground arith)
    | inr (url, parsed) ↦ path_of_stack lib root_fs url parsed λ h.
        lookup-some_of_stack url.path_opaque preloaded
          ((providers_match-preloaded_iff url h).0 (ground arith))
  ]
