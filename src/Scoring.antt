-- ===== src/Scoring.antt =====
-- scoring.go, and ComputeScore of resources.go: the score by which the auctioneer compares cells. The
-- arithmetic of float64 is a parameter.
pub mod Fit
use rep.Base.{ℕ, Option, none, some}
use rep.Base.Int.{ℤ}
use rep.Cell.{Resources, Resource, CellState, subtract}

-- float64: the conversion of an integer, the operations and the literals that the code uses.
pub record Arithmetic (F : Type 0) : Type 0 where
  pub from_int : ℤ → F
  pub add : F → F → F
  pub sub : F → F → F
  pub mul : F → F → F
  pub div : F → F → F
  pub literal : ℕ → F

module _ {F : Type 0} (a : Arithmetic F) where
  -- float64(part) / float64(total)
  unfoldable pub fraction : ℤ → ℤ → F
  fraction part total = a.div (a.from_int part) (a.from_int total)

  -- Resources.ComputeScore.
  unfoldable pub resources_score : Resources → Resources → F
  unfolding fraction
  resources_score r total =
      let fraction_used_memory = a.sub (a.literal 1) (fraction r.memory_mb total.memory_mb) in
      let fraction_used_disk = a.sub (a.literal 1) (fraction r.disk_mb total.disk_mb) in
      let fraction_used_containers = a.sub (a.literal 1) (fraction r.containers total.containers) in
      a.div (a.add (a.add fraction_used_memory fraction_used_disk) fraction_used_containers)
        (a.literal 3)

  -- computeScore.
  unfoldable pub compute_score : CellState → Resource → F → F
  unfolding resources_score
  compute_score c res starting_container_weight =
      let remaining_resources = subtract c.available_resources res in
      let starting_container_score =
        a.mul (a.from_int c.starting_container_count) starting_container_weight in
      a.add (resources_score remaining_resources c.total_resources) starting_container_score

  -- CellState.ComputeScore of resources.go.
  unfoldable pub cell_state_score : CellState → Resource → F → F
  unfolding resources_score
  cell_state_score c res starting_container_weight =
      let remaining_resources = subtract c.available_resources res in
      let starting_container_score =
        a.mul (a.from_int c.starting_container_count) starting_container_weight in
      a.add (resources_score remaining_resources c.total_resources) starting_container_score

  unfoldable pub best_fit : CellState → Resource → F → F
  unfolding fraction
  best_fit c res starting_container_weight =
      let total = c.total_resources in
      let remaining_resources = subtract c.available_resources res in
      let fraction_used_memory = fraction remaining_resources.memory_mb total.memory_mb in
      let fraction_used_disk = fraction remaining_resources.disk_mb total.disk_mb in
      let fraction_used_containers =
        a.mul (fraction remaining_resources.containers total.containers) (a.literal 3) in
      a.div (a.add (a.add fraction_used_memory fraction_used_disk) fraction_used_containers)
        (a.literal 5)

  -- ScoreType; `none` is a nil Compute.
  pub record ScoreType : Type 0 where
    pub compute : Option (CellState → Resource → F → F)

  -- NewScoreType.
  unfoldable pub new_score_type : (ScoreType → ScoreType) → ScoreType
  new_score_type f = f (record { compute = none })

  unfoldable pub best_fit_fashion : ScoreType → ScoreType
  best_fit_fashion st = record st { compute = some best_fit }

  unfoldable pub worst_fit_fashion : ScoreType → ScoreType
  worst_fit_fashion st = record st { compute = some compute_score }
