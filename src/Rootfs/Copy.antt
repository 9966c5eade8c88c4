-- ===== src/Rootfs/Copy.antt =====
-- rootfs_providers.go's Copy: a map of its own with the same providers.
use rep.Base.{String, ◌==◌, eq_iff, [], ◌∷◌, Option, none, some, ◌≡◌, refl, sym, arith}
use rep.Base.Tests.{if◌then◌else◌}
use rep.Base.GoMap.{lookup, put, lookup-put}
use rep.Base.MapOrder.{Same}
use rep.Rootfs.{RootFsProvider, RootFsProviders}

-- m[key] = v, of a value that is there: a key that is ranged over is never missing.
abbrev put_found : String → Option RootFsProvider → RootFsProviders → RootFsProviders
put_found key none copied = copied
put_found key (some provider) copied = put key provider copied

-- for key := range p { pCopy[key] = p[key] }, of the keys that are left.
unfoldable pub copy_keys : RootFsProviders → RootFsProviders → RootFsProviders → RootFsProviders
copy_keys p copied [] = copied
copy_keys p copied ((key, _) ∷ more) = copy_keys p (put_found key (lookup key p) copied) more

unfoldable pub copy : RootFsProviders → RootFsProviders
unfolding copy_keys
copy p = copy_keys p [] p

module _ (p : RootFsProviders) where
  -- The keys that were ranged over have the value of `p`, and only keys of `p` were copied.
  record IsCopied (copied range : RootFsProviders) : Type 0 where
    same : (k : String) → lookup k range ≡ none → lookup k copied ≡ lookup k p
    nothing_else : (k : String) → lookup k p ≡ none → lookup k copied ≡ none

  lookup-put_found :
      (key k : String) (found : Option RootFsProvider) (copied : RootFsProviders)
      → found ≡ lookup key p
      → ((j : String) → lookup j p ≡ none → lookup j copied ≡ none)
      → lookup k (put_found key found copied) ≡ (if key == k then lookup k p else lookup k copied)
  lookup-put_found key k none copied e h = ground (arith, eq_iff key k, h k)
  lookup-put_found key k (some v) copied e h =
      ground (arith, eq_iff key k, lookup-put key k v copied)

  step-IsCopied :
      (key : String) (v : RootFsProvider) (copied more : RootFsProviders)
      → IsCopied copied ((key, v) ∷ more)
      → IsCopied (put_found key (lookup key p) copied) more
  unfolding lookup
  step-IsCopied key v copied more h = record {
    same = λ k left.
        ground (arith, lookup-put_found key k (lookup key p) copied refl h.nothing_else, h.same k);
    nothing_else = λ k missing.
        ground (
          arith,
          lookup-put_found key k (lookup key p) copied refl h.nothing_else,
          h.nothing_else k,
        );
  }

  copy_keys-Same :
      (copied range : RootFsProviders) → IsCopied copied range → Same (copy_keys p copied range) p
  unfolding copy_keys lookup
  copy_keys-Same copied [] h k = h.same k refl
  copy_keys-Same copied ((key, v) ∷ more) h k =
      copy_keys-Same (put_found key (lookup key p) copied) more (step-IsCopied key v copied more h)
        k

-- A copy of the providers has the same lookups, in whatever order Go ranges over the map.
pub copy-Same : (p : RootFsProviders) → Same (copy p) p
unfolding copy lookup
copy-Same p =
    copy_keys-Same p [] p
      (record { same = λ k missing. sym missing; nothing_else = λ k missing. refl })
