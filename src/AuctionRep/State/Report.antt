-- ===== src/AuctionRep/State/Report.antt =====
-- What State reports of the containers that the executor lists.
use rep.Base.{◌≡◌, List}
use rep.Base.Int.{pos}
use rep.Base.Result.{Result}
use rep.Cell.{CellState}
use rep.Models.{Container}
use rep.Services.{Library}
use rep.AuctionRep.{AuctionCellRep}
use rep.AuctionRep.State.Loop.{all_lrps, all_tasks, starting}

-- What a state `s` says of the containers `cs`.
pub record Describes (lib : Library) (a : AuctionCellRep) (cs : List Container) (s : CellState)
    : Type 0 where
  pub lrps : s.lrps ≡ all_lrps lib cs
  pub tasks : s.tasks ≡ all_tasks cs
  pub starting : s.starting_container_count ≡ pos (starting cs)
  pub providers : s.root_fs_providers ≡ a.root_fs_providers
  pub zone : s.zone ≡ a.zone
  pub placement : s.placement_tags ≡ a.placement_tags
  pub optional_placement : s.optional_placement_tags ≡ a.optional_placement_tags
