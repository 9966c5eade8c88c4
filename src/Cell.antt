-- ===== src/Cell.antt =====
-- resources.go: the state of a cell as the auctioneer sees it, its resources, and the work placed
-- on it. MemoryMB, DiskMB and MaxPids are int32, Containers is int.
pub mod Matching
pub mod Identifier
pub mod Problems
pub mod Capacity
pub mod Placement
pub mod Constructors
use rep.Base.{
  ℕ, suc, ◌+◌, String, ◌==◌, Bool, true, false, ◌&&◌, not, List, [], ◌∷◌, ◌++◌, Option, none, some,
}
use rep.Base.Tests.{if◌then◌else◌}
use rep.Base.Int.{ℤ, pos, ◌+ℤ◌, ◌-ℤ◌, ltb_ℤ, int32, int64}
use rep.Base.GoMap.{put, has}
use rep.Base.Sets.{StringSet, add_all}
use rep.Rootfs.{Url, RootFsProviders, providers_match}

pub record Resources : Type 0 where
  pub memory_mb : ℤ
  pub disk_mb : ℤ
  pub containers : ℤ

pub record Resource : Type 0 where
  pub memory_mb : ℤ
  pub disk_mb : ℤ
  pub max_pids : ℤ

pub record PlacementConstraint : Type 0 where
  pub placement_tags : List String
  pub volume_drivers : List String
  pub root_fs : String

-- models.ActualLRPKey of the bbs.
pub record ActualLrpKey : Type 0 where
  pub process_guid : String
  pub index : ℤ
  pub domain : String

pub record Lrp : Type 0 where
  pub key : ActualLrpKey
  pub constraint : PlacementConstraint
  pub resource : Resource

pub record Task : Type 0 where
  pub task_guid : String
  pub domain : String
  pub constraint : PlacementConstraint
  pub resource : Resource

pub record Work : Type 0 where
  pub lrps : List Lrp
  pub tasks : List Task

pub record CellState : Type 0 where
  pub root_fs_providers : RootFsProviders
  pub available_resources : Resources
  pub total_resources : Resources
  pub lrps : List Lrp
  pub tasks : List Task
  pub starting_container_count : ℤ
  pub zone : String
  pub evacuating : Bool
  pub volume_drivers : List String
  pub placement_tags : List String
  pub optional_placement_tags : List String

unfoldable pub subtract : Resources → Resource → Resources
unfolding ◌-ℤ◌
subtract r res = record {
  memory_mb = int32 (r.memory_mb -ℤ res.memory_mb);
  disk_mb = int32 (r.disk_mb -ℤ res.disk_mb);
  containers = int64 (r.containers -ℤ pos 1);
}

unfoldable pub resource_valid : Resource → Bool
resource_valid r = not (ltb_ℤ r.disk_mb (pos 0)) && not (ltb_ℤ r.memory_mb (pos 0))

unfoldable pub constraint_valid : PlacementConstraint → Bool
constraint_valid p = not (p.root_fs == "")

unfoldable pub add_lrp : CellState → Lrp → CellState
add_lrp c lrp = record c {
  available_resources = subtract c.available_resources lrp.resource;
  starting_container_count = int64 (c.starting_container_count +ℤ pos 1);
  lrps = c.lrps ++ lrp ∷ [];
}

unfoldable pub add_task : CellState → Task → CellState
add_task c task = record c {
  available_resources = subtract c.available_resources task.resource;
  starting_container_count = int64 (c.starting_container_count +ℤ pos 1);
  tasks = c.tasks ++ task ∷ [];
}

-- The map of problems that ResourceMatch fills under its three tests.
unfoldable pub problem_set : Bool → Bool → Bool → StringSet
unfolding put
problem_set disk_short memory_short containers_short =
    let disk = if disk_short then put "disk" tt [] else [] in
    let memory = if memory_short then put "memory" tt disk else disk in
    if containers_short then put "containers" tt memory else memory

unfoldable pub problems : CellState → Resource → StringSet
problems c res =
    problem_set (ltb_ℤ c.available_resources.disk_mb res.disk_mb)
      (ltb_ℤ c.available_resources.memory_mb res.memory_mb)
      (ltb_ℤ c.available_resources.containers (pos 1))

-- nil, or InsufficientResourcesError with its Problems.
unfoldable pub insufficient : StringSet → Option StringSet
insufficient [] = none
insufficient (problem ∷ more) = some (problem ∷ more)

unfoldable pub resource_match : CellState → Resource → Option StringSet
unfolding problems insufficient
resource_match c res = insufficient (problems c res)

-- The inner loop of MatchVolumeDrivers, with its break.
driver_found : String → List String → Bool
driver_found requested [] = false
driver_found requested (actual ∷ more) =
    if requested == actual then true else driver_found requested more

match_drivers : List String → List String → Bool
match_drivers [] actual = true
match_drivers (requested ∷ more) actual =
    let rest = match_drivers more actual in if driver_found requested actual then rest else false

unfoldable pub match_volume_drivers : CellState → List String → Bool
unfolding match_drivers driver_found
match_volume_drivers c volume_drivers = match_drivers volume_drivers c.volume_drivers

unfoldable pub to_set : List String → StringSet
to_set slice = add_all [] slice

-- for k := range set { tags[k] = struct{}{} }
put_all : StringSet → StringSet → StringSet
put_all tags [] = tags
put_all tags ((k, _) ∷ more) = put_all (put k tt tags) more

unfoldable pub union : StringSet → StringSet → StringSet
unfolding put_all
union set other = put_all (put_all [] set) other

unfoldable pub is_subset : StringSet → StringSet → Bool
is_subset [] other = true
is_subset ((k, _) ∷ set) other =
    let rest = is_subset set other in if has k other then rest else false

unfoldable pub match_placement_tags : CellState → List String → Bool
unfolding to_set union is_subset
match_placement_tags c desired_placement_tags =
    let desired_tags = to_set desired_placement_tags in
    let optional_tags = to_set c.optional_placement_tags in
    let required_tags = to_set c.placement_tags in
    let all_tags = union required_tags optional_tags in
    is_subset required_tags desired_tags && is_subset desired_tags all_tags

-- `parse` is url.Parse, `none` its error.
unfoldable pub match_root_fs : (String → Option Url) → CellState → String → Bool
match_root_fs parse c rootfs = elim (parse rootfs) [
  | none ↦ false
  | some root_fs_url ↦ providers_match c.root_fs_providers root_fs_url
]
