-- ===== src/Services/Polling.antt =====
-- Loops that test, and wait before they test again, until the test holds: the loop on fuel, and when it
-- ends. The fuel bounds the number of tests.
use rep.Base.{ℕ, zero, suc, ◌<◌, ◌≡◌, refl, inl, inr, Bool, true, false, arith}
use rep.Base.Tests.{Bool-cases}
use rep.Services.{World, M, pure, ◌>>=◌}

-- `if done { return }`, with what follows.
abbrev pub or_go_on : {S : Type 0} → Bool → M S Bool → M S Bool
or_go_on true more = pure true
or_go_on false more = more

module _ {S : Type 0} (test : M S Bool) (wait : M S (Unit {0})) where
  -- Whether the test held before the fuel was spent.
  unfoldable pub poll : ℕ → M S Bool
  poll zero = pure false
  poll (suc fuel) = test >>= λ done. or_go_on done (wait >>= λ _. poll fuel)

  -- The world in which the test of round `k` is made, if none before it held.
  pub in_round : ℕ → World S → World S
  in_round zero w = w
  in_round (suc k) w = in_round k (wait (test w).1).1

  pub poll-holds :
      (fuel : ℕ) (w : World S)
      → (poll fuel w).0 ≡ true
      → (k : ℕ) × (k < fuel) × ((test (in_round k w)).0 ≡ true)
  unfolding poll in_round
  poll-holds zero w h = cc
  poll-holds (suc fuel) w h = elim (Bool-cases (test w).0) [
    | inl held ↦ (0, omega arith, held)
    | inr unheld ↦
        let (k, lt, holds) = poll-holds fuel (wait (test w).1).1 (rw unheld at h) in
        (suc k, omega arith, holds)
  ]

  -- Fuel beyond the first round whose test holds changes nothing.
  pub poll-ends :
      (k : ℕ) (w : World S)
      → (test (in_round k w)).0 ≡ true
      → (fuel : ℕ) → k < fuel
      → ((poll fuel w).0 ≡ true) × (poll fuel w ≡ poll (suc k) w)
  unfolding poll in_round
  poll-ends zero w h zero lt = absurd (omega arith)
  poll-ends zero w h (suc fuel) lt = rw h (refl, refl)
  poll-ends (suc k) w h zero lt = absurd (omega arith)
  poll-ends (suc k) w h (suc fuel) lt = elim (Bool-cases (test w).0) [
    | inl held ↦ rw held (refl, refl)
    | inr unheld ↦ rw unheld (poll-ends k (wait (test w).1).1 h fuel (omega arith))
  ]
