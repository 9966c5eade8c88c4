-- ===== src/Scoring/Fit.antt =====
-- Which cells the scores prefer: the auctioneer takes the lowest score.
use rep.Base.{ℕ, ◌<◌, ◌≡◌, sym, arith}
use rep.Base.Int.{ℤ, pos, ◌≤ℤ◌, ◌<ℤ◌}
use rep.Cell.{Resources, Resource, CellState, subtract}
use rep.Scoring.{Arithmetic, fraction, resources_score, compute_score, best_fit}

-- The operations of float64 keep or turn round the order of finite numbers: rounding is monotone.
pub record IsOrdered {F : Type 0} (a : Arithmetic F) (Le : F → F → Type 0) : Type 0 where
  pub reflexive : (x : F) → Le x x
  pub from_int_mono : {m n : ℤ} → m ≤ℤ n → Le (a.from_int m) (a.from_int n)
  pub add_mono : {x x' y y' : F} → Le x x' → Le y y' → Le (a.add x y) (a.add x' y')
  pub sub_anti : {x y : F} → (z : F) → Le x y → Le (a.sub z y) (a.sub z x)
  pub div_int_mono :
      {x y : F}
      → (t : ℤ) → pos 0 <ℤ t
      → Le x y
      → Le (a.div x (a.from_int t)) (a.div y (a.from_int t))
  pub div_literal_mono :
      {x y : F} → (n : ℕ) → 0 < n → Le x y → Le (a.div x (a.literal n)) (a.div y (a.literal n))
  pub mul_literal_mono :
      {x y : F} → (n : ℕ) → Le x y → Le (a.mul x (a.literal n)) (a.mul y (a.literal n))

-- At most as much in each of the three resources.
pub record AtMost (r s : Resources) : Type 0 where
  pub memory : r.memory_mb ≤ℤ s.memory_mb
  pub disk : r.disk_mb ≤ℤ s.disk_mb
  pub containers : r.containers ≤ℤ s.containers

-- Some of each resource.
pub record IsPositive (total : Resources) : Type 0 where
  pub memory : pos 0 <ℤ total.memory_mb
  pub disk : pos 0 <ℤ total.disk_mb
  pub containers : pos 0 <ℤ total.containers

module _ {F : Type 0} (a : Arithmetic F) (Le : F → F → Type 0) (o : IsOrdered a Le) where
  fraction_mono : (m n t : ℤ) → pos 0 <ℤ t → m ≤ℤ n → Le (fraction a m t) (fraction a n t)
  unfolding fraction
  fraction_mono m n t positive le = o.div_int_mono t positive (o.from_int_mono le)

  resources_score_anti :
      (r s total : Resources)
      → IsPositive total
      → AtMost r s
      → Le (resources_score a s total) (resources_score a r total)
  unfolding resources_score
  resources_score_anti r s total p le =
      let memory = fraction_mono r.memory_mb s.memory_mb total.memory_mb p.memory le.memory in
      let disk = fraction_mono r.disk_mb s.disk_mb total.disk_mb p.disk le.disk in
      let containers =
        fraction_mono r.containers s.containers total.containers p.containers le.containers in
      o.div_literal_mono 3 (omega arith) (
        o.add_mono (o.add_mono (o.sub_anti (a.literal 1) memory) (o.sub_anti (a.literal 1) disk))
          (o.sub_anti (a.literal 1) containers))

  -- Of two cells with the same totals, of which there is some of each, and as many starting containers,
  -- where after the placement the first has at most as much left of each resource as the second:
  -- computeScore gives the second at most the score of the first, and bestFit the first at most that of
  -- the second. So worst fit prefers the emptier cell, and best fit the fuller one. The
  -- operations of float64 are taken to keep or turn round the order of numbers.
  pub scores-AtMost :
      (c d : CellState) (res : Resource) (weight : F)
      → IsPositive c.total_resources
      → c.total_resources ≡ d.total_resources
      → c.starting_container_count ≡ d.starting_container_count
      → AtMost (subtract c.available_resources res) (subtract d.available_resources res)
      → Le (compute_score a d res weight) (compute_score a c res weight)
        × Le (best_fit a c res weight) (best_fit a d res weight)
  unfolding compute_score best_fit
  scores-AtMost c d res weight p same starting le =
      let r = subtract c.available_resources res in
      let s = subtract d.available_resources res in
      let total = c.total_resources in
      let memory = fraction_mono r.memory_mb s.memory_mb total.memory_mb p.memory le.memory in
      let disk = fraction_mono r.disk_mb s.disk_mb total.disk_mb p.disk le.disk in
      let containers =
        fraction_mono r.containers s.containers total.containers p.containers le.containers in
      rw (sym same, sym starting)
        (
          o.add_mono (resources_score_anti r s total p le) (o.reflexive _),
          o.div_literal_mono 5 (omega arith)
              (o.add_mono (o.add_mono memory disk) (o.mul_literal_mono 3 containers)),
        )
