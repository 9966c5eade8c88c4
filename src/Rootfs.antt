-- ===== src/Rootfs.antt =====
-- rootfs_providers.go: the two kinds of rootfs provider, the providers of a cell by URL scheme, and
-- the parts of a parsed URL (net/url) that the program reads.
pub mod Json
pub mod Read
pub mod Panics
pub mod Copy
use rep.Base.{String, Bool, true, false, List, [], none, some}
use rep.Base.GoMap.{GoMap, lookup, has}
use rep.Base.Sets.{StringSet, add_all}

-- url.URL
pub record Url : Type 0 where
  pub scheme : String
  pub path_opaque : String
  pub raw_query : String

pub data RootFsProviderType : Type 0 where
  arbitrary fixed_set : RootFsProviderType

pub data RootFsProvider : Type 0 where
  arbitrary_provider : RootFsProvider
  fixed_set_provider : StringSet → RootFsProvider

unfoldable pub provider_type : RootFsProvider → RootFsProviderType
provider_type arbitrary_provider = arbitrary
provider_type (fixed_set_provider set) = fixed_set

unfoldable pub provider_match : RootFsProvider → Url → Bool
provider_match arbitrary_provider rootfs = true
provider_match (fixed_set_provider set) rootfs = has rootfs.path_opaque set

unfoldable pub new_string_set : List String → StringSet
new_string_set entries = add_all [] entries

unfoldable pub new_fixed_set_root_fs_provider : List String → RootFsProvider
unfolding new_string_set
new_fixed_set_root_fs_provider rootfses = fixed_set_provider (new_string_set rootfses)

abbrev pub RootFsProviders : Type 0
RootFsProviders = GoMap RootFsProvider

unfoldable pub providers_match : RootFsProviders → Url → Bool
unfolding provider_match
providers_match p root_fs = elim (lookup root_fs.scheme p) [
  | none ↦ false
  | some provider ↦ provider_match provider root_fs
]
