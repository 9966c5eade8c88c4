-- ===== src/Examples/Auction.antt =====
-- The theorems on the rep as the auctioneer sees it, applied.
use rep.Base.{◌+◌, String, false, ◌≡◌, refl, inl, inr, List, [], ◌∷◌}
use rep.Base.Slices.{All, length}
use rep.Base.Int.{pos}
use rep.Base.GoMap.{lookup, put, has}
use rep.Base.Result.{Result, ok, err}
use rep.Base.Sets.{add_all}
use rep.Rootfs.{Url, providers_match, new_fixed_set_root_fs_provider}
use rep.Cell.{Resource, PlacementConstraint, Lrp, Task, Work, CellState, match_root_fs}
use rep.Models.{Container, reserved, completed}
use rep.Services.{ExecutorError, allocate_containers, generate_instance_guid}
use rep.AuctionRep.{StackPathMap, AuctionCellRep, new, root_fs_providers, path_for_root_fs}
use rep.AuctionRep.RootFs.{IsPreloaded, match_root_fs-path}
use rep.AuctionRep.Perform.{nothing_translated, lrps_to_allocation_request}
use rep.AuctionRep.Perform.Translation.{Handled, lrps_to_allocation_request-Handled}
use rep.AuctionRep.Perform.Refusals.{Accounts, perform_lrps-Returned}
use rep.Models.{AllocationRequest}
use rep.AuctionRep.Perform.{perform_lrps}
use rep.Examples.{env, library, steady, lrp_key, lrp_container, task_container}

abbrev stacks : StackPathMap
stacks = ("linux", "/stacks/linux") ∷ []

abbrev pub rep_of_cell : AuctionCellRep
rep_of_cell = new "cell" stacks ("docker" ∷ []) "z1" [] []

abbrev linux : Url
linux = record { scheme = "preloaded"; path_opaque = "linux"; raw_query = "" }

abbrev docker : Url
docker = record { scheme = "docker"; path_opaque = ""; raw_query = "" }

abbrev constraint : PlacementConstraint
constraint = record { placement_tags = []; volume_drivers = []; root_fs = "preloaded:linux" }

abbrev resource : Resource
resource = record { memory_mb = pos 40; disk_mb = pos 10; max_pids = pos 8 }

abbrev pub placed_lrp : Lrp
placed_lrp = record { key = lrp_key; constraint = constraint; resource = resource }

abbrev placed_task : Task
placed_task = record {
  task_guid = "task";
  domain = "jobs";
  constraint = constraint;
  resource = resource;
}

abbrev work : Work
work = record { lrps = placed_lrp ∷ []; tasks = placed_task ∷ [] }

not-IsPreloaded : ¬ IsPreloaded docker
not-IsPreloaded (inl e) = cc
not-IsPreloaded (inr e) = cc

abbrev cell : CellState
cell = record {
  root_fs_providers = root_fs_providers stacks ("docker" ∷ []);
  available_resources = record { memory_mb = pos 1; disk_mb = pos 1; containers = pos 1 };
  total_resources = record { memory_mb = pos 1; disk_mb = pos 1; containers = pos 1 };
  lrps = [];
  tasks = [];
  starting_container_count = pos 0;
  zone = "z1";
  evacuating = false;
  volume_drivers = [];
  placement_tags = [];
  optional_placement_tags = [];
}

match_root_fs-path_example :
    (path : String) × (path_for_root_fs library "preloaded:linux" stacks ≡ ok path)
unfolding match_root_fs providers_match lookup root_fs_providers put new_fixed_set_root_fs_provider
    has add_all
match_root_fs-path_example =
    match_root_fs-path stacks ("docker" ∷ []) library cell "preloaded:linux" refl refl

lrps_to_allocation_request-Handled_example :
    let t = (lrps_to_allocation_request env stacks nothing_translated (placed_lrp ∷ []) steady).0 in
    All (Handled library stacks t) (placed_lrp ∷ [])
    × (length t.requests + length t.untranslated ≡ length (placed_lrp ∷ []))
lrps_to_allocation_request-Handled_example =
    lrps_to_allocation_request-Handled env stacks (placed_lrp ∷ []) steady

perform_lrps-Returned_example :
    (requests : List AllocationRequest) × ((perform_lrps env stacks
        (placed_lrp ∷ [])
        steady).1.calls
      ≡ allocate_containers requests ∷ generate_instance_guid ∷ [])
    × Accounts library stacks
        (placed_lrp ∷ [])
        requests
        (ok requests)
        (perform_lrps env stacks (placed_lrp ∷ []) steady).0
perform_lrps-Returned_example = perform_lrps-Returned env stacks placed_lrp [] steady

abbrev containers : List Container
containers = lrp_container reserved ∷ task_container completed ∷ []

abbrev listed : Result ExecutorError (List Container)
listed = ok containers

abbrev list_of : Result ExecutorError (List Container) → List Container
list_of (ok cs) = cs
list_of (err _) = []
