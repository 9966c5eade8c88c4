-- ===== src/AuctionRep.antt =====
-- auctioncellrep/auction_cell_rep.go: the rep as the auctioneer talks to it, its rootfs providers
-- and the translation of a rootfs into a path. Logging is left out.
pub mod RootFs
pub mod Perform
pub mod State
pub mod Guid
use rep.Base.{String, ◌==◌, Bool, true, false, List, [], ◌∷◌, Option, none, some}
use Prim.Native.String.{◌++◌}
use rep.Base.Tests.{if◌then◌else◌}
use rep.Base.GoMap.{GoMap, lookup, put}
use rep.Base.Result.{Result, ok, err}
use rep.Rootfs.{RootFsProvider, arbitrary_provider, RootFsProviders, new_fixed_set_root_fs_provider}
use rep.Conversion.Tags.{preloaded_root_fs_scheme, preloaded_oci_root_fs_scheme}
use rep.Services.{Library}

abbrev pub StackPathMap : Type 0
StackPathMap = GoMap String

pub record AuctionCellRep : Type 0 where
  pub cell_id : String
  pub stack_path_map : StackPathMap
  pub root_fs_providers : RootFsProviders
  pub zone : String
  pub placement_tags : List String
  pub optional_placement_tags : List String

-- for _, scheme := range arbitrary { rootFSProviders[scheme] = ArbitraryRootFSProvider{} }
unfoldable pub put_arbitrary : RootFsProviders → List String → RootFsProviders
put_arbitrary providers [] = providers
put_arbitrary providers (scheme ∷ more) =
    put_arbitrary (put scheme arbitrary_provider providers) more

-- for stack, _ := range preloaded { stacks = append(stacks, stack) }
unfoldable pub stacks_of : StackPathMap → List String
stacks_of [] = []
stacks_of ((stack, _) ∷ more) = stack ∷ stacks_of more

unfoldable pub root_fs_providers : StackPathMap → List String → RootFsProviders
unfolding put_arbitrary stacks_of
root_fs_providers preloaded arbitrary =
    let stacks = stacks_of preloaded in
    put preloaded_oci_root_fs_scheme (new_fixed_set_root_fs_provider stacks) (
      put preloaded_root_fs_scheme (new_fixed_set_root_fs_provider stacks)
        (put_arbitrary [] arbitrary))

-- New; the executor, the guid generator and the evacuation reporter are services.
unfoldable pub new :
    String → StackPathMap → List String → String → List String → List String → AuctionCellRep
new cell_id preloaded arbitrary zone placement_tags optional_placement_tags = record {
  cell_id = cell_id;
  stack_path_map = preloaded;
  root_fs_providers = root_fs_providers preloaded arbitrary;
  zone = zone;
  placement_tags = placement_tags;
  optional_placement_tags = optional_placement_tags;
}

pub data PathError : Type 0 where
  invalid_root_fs_url preloaded_root_fs_not_found : PathError

unfoldable pub path_for_root_fs : Library → String → StackPathMap → Result PathError String
path_for_root_fs lib root_fs stack_path_map =
    if root_fs == "" then ok root_fs else elim (lib.parse_url root_fs) [
      | none ↦ err invalid_root_fs_url
      | some url ↦
          if url.scheme == preloaded_root_fs_scheme
          then elim (lookup url.path_opaque stack_path_map) [
            | none ↦ err preloaded_root_fs_not_found
            | some path ↦ ok path
          ]
          else if url.scheme == preloaded_oci_root_fs_scheme
          then elim (lookup url.path_opaque stack_path_map) [
            | none ↦ err preloaded_root_fs_not_found
            | some path ↦ ok (url.scheme ++ ":" ++ path ++ "?" ++ url.raw_query)
          ]
          else ok root_fs
    ]

pub data ResetError : Type 0 where
  not_a_simulation_rep : ResetError

-- Reset.
unfoldable pub reset : Result ResetError (Unit {0})
reset = err not_a_simulation_rep
