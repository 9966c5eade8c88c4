-- ===== src/Examples/Scores.antt =====
-- The theorem on the scores, applied: an arithmetic of whole numbers that rounds down.
use Prim.Native.Nat.{◌/◌}
use native.Mathlib.Nat.{le-div_iff_mul-le, div-mul-le_self}
use rep.Base.{false, [], ℕ, zero, suc, ◌≤◌, ◌<◌, refl, arith}
use rep.Base.Int.{ℤ, pos, negsuc, pos_part, ◌+ℤ◌, ◌-ℤ◌, ◌≤ℤ◌, int_laws, wrap, residue}
use rep.Cell.{CellState, Resource, subtract}
use rep.Scoring.{Arithmetic, compute_score, best_fit}
use rep.Scoring.Fit.{IsOrdered, AtMost, scores-AtMost}

-- Division by a positive number, rounded down.
abbrev quotient : ℤ → ℕ → ℤ
quotient (pos n) t = pos (n / t)
quotient (negsuc n) t = negsuc (n / t)

abbrev times : ℤ → ℕ → ℤ
times x zero = pos 0
times x (suc n) = x +ℤ times x n

abbrev whole : Arithmetic ℤ
whole = record {
  from_int = λ z. z;
  add = ◌+ℤ◌;
  sub = ◌-ℤ◌;
  mul = λ x y. times x (pos_part y);
  div = λ x y. quotient x (pos_part y);
  literal = λ n. pos n;
}

div_mono : (m n t : ℕ) → 0 < t → m ≤ n → m / t ≤ n / t
div_mono m n t positive le =
    (le-div_iff_mul-le {k = t} {x = m / t} {y = n} positive).1 (omega (arith, div-mul-le_self m t))

quotient_mono : (x y : ℤ) (t : ℕ) → 0 < t → x ≤ℤ y → quotient x t ≤ℤ quotient y t
quotient_mono (pos m) (pos n) t positive le = omega (arith, div_mono m n t positive (omega arith))
quotient_mono (pos m) (negsuc n) t positive le = absurd (omega arith)
quotient_mono (negsuc m) (pos n) t positive le = omega arith
quotient_mono (negsuc m) (negsuc n) t positive le =
    omega (arith, div_mono n m t positive (omega arith))

times_mono : (x y : ℤ) (n : ℕ) → x ≤ℤ y → times x n ≤ℤ times y n
times_mono x y zero le = omega arith
times_mono x y (suc n) le = grind (int_laws, times_mono x y n le)

whole-IsOrdered : IsOrdered whole ◌≤ℤ◌
whole-IsOrdered = record {
  reflexive = λ x. omega arith;
  from_int_mono = λ le. le;
  add_mono = λ p q. grind int_laws;
  sub_anti = λ z p. grind int_laws;
  div_int_mono = λ t positive le. quotient_mono _ _ (pos_part t) (omega arith) le;
  div_literal_mono = λ n positive le. quotient_mono _ _ n positive le;
  mul_literal_mono = λ n le. times_mono _ _ n le;
}

abbrev cell_with : ℕ → CellState
cell_with memory = record {
  root_fs_providers = [];
  available_resources = record { memory_mb = pos memory; disk_mb = pos 500; containers = pos 10 };
  total_resources = record { memory_mb = pos 1000; disk_mb = pos 1000; containers = pos 100 };
  lrps = [];
  tasks = [];
  starting_container_count = pos 2;
  zone = "";
  evacuating = false;
  volume_drivers = [];
  placement_tags = [];
  optional_placement_tags = [];
}

abbrev wanted : Resource
wanted = record { memory_mb = pos 100; disk_mb = pos 100; max_pids = pos 0 }

less_left :
    AtMost
      (subtract (cell_with 300).available_resources wanted)
      (subtract (cell_with 900).available_resources wanted)
unfolding subtract ◌-ℤ◌ wrap residue
less_left = record { memory = omega arith; disk = omega arith; containers = omega arith }

scores-AtMost_example :
    (compute_score whole (cell_with 900) wanted (pos 1)
      ≤ℤ compute_score whole (cell_with 300) wanted (pos 1))
    × (best_fit whole (cell_with 300) wanted (pos 1)
        ≤ℤ best_fit whole (cell_with 900) wanted (pos 1))
scores-AtMost_example =
    scores-AtMost whole ◌≤ℤ◌ whole-IsOrdered (cell_with 300) (cell_with 900) wanted (pos 1)
      (record { memory = omega arith; disk = omega arith; containers = omega arith }) refl refl
      less_left
