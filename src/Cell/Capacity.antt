-- ===== src/Cell/Capacity.antt =====
-- Resources of a cell under ResourceMatch, AddLRP and AddTask (resources.go).
use rep.Base.{ℕ, ◌≡◌, refl, Bool, true, false, ◌↔◌, none, arith}
use rep.Base.Int.{ℤ, pos, ◌-ℤ◌, ◌≤ℤ◌, ltb_ℤ, half32, half64, InWord, int_laws, wrap, wrap-InWord}
use rep.Base.GoMap.{has}
use rep.Cell.{
  Resources, Resource, CellState, subtract, resource_valid, problem_set, insufficient, problems,
  resource_match,
}

-- What a request asks of the available resources.
pub record Fits (c : CellState) (res : Resource) : Type 0 where
  pub memory : res.memory_mb ≤ℤ c.available_resources.memory_mb
  pub disk : res.disk_mb ≤ℤ c.available_resources.disk_mb
  pub container : pos 1 ≤ℤ c.available_resources.containers

insufficient-problem_set :
    (d m k : Bool)
    → (insufficient (problem_set d m k) ≡ none) ↔ ((d ≡ false) × (m ≡ false) × (k ≡ false))
unfolding insufficient problem_set
insufficient-problem_set false false false = (λ h. (refl, refl, refl), λ h. refl)
insufficient-problem_set true false false = (λ h. cc, λ h. cc)
insufficient-problem_set false true false = (λ h. cc, λ h. cc)
insufficient-problem_set true true false = (λ h. cc, λ h. cc)
insufficient-problem_set false false true = (λ h. cc, λ h. cc)
insufficient-problem_set true false true = (λ h. cc, λ h. cc)
insufficient-problem_set false true true = (λ h. cc, λ h. cc)
insufficient-problem_set true true true = (λ h. cc, λ h. cc)

-- The three tests of ResourceMatch pass exactly when the request fits.
tests_iff :
    (c : CellState) (res : Resource)
    → ((ltb_ℤ c.available_resources.disk_mb res.disk_mb ≡ false)
        × (ltb_ℤ c.available_resources.memory_mb res.memory_mb ≡ false)
        × (ltb_ℤ c.available_resources.containers (pos 1) ≡ false))
      ↔ Fits c res
tests_iff c res = (λ h. ground arith, λ h. ground arith)

-- ResourceMatch returns nil exactly when memory, disk and one container are available.
pub resource_match_iff :
    (c : CellState) (res : Resource) → (resource_match c res ≡ none) ↔ Fits c res
unfolding resource_match problems
resource_match_iff c res = (
  λ h. (tests_iff c res).0 ((insufficient-problem_set _ _ _).0 h),
  λ h. (insufficient-problem_set _ _ _).1 ((tests_iff c res).1 h),
)

has-problem_set :
    (d m k : Bool)
    → (has "disk" (problem_set d m k) ≡ d)
      × (has "memory" (problem_set d m k) ≡ m)
      × (has "containers" (problem_set d m k) ≡ k)
unfolding problem_set has
has-problem_set false false false = (refl, refl, refl)
has-problem_set true false false = (refl, refl, refl)
has-problem_set false true false = (refl, refl, refl)
has-problem_set true true false = (refl, refl, refl)
has-problem_set false false true = (refl, refl, refl)
has-problem_set true false true = (refl, refl, refl)
has-problem_set false true true = (refl, refl, refl)
has-problem_set true true true = (refl, refl, refl)

-- The problems that an InsufficientResourcesError names are exactly the resources that fall short:
-- disk, memory and, below one, containers.
pub has-problems :
    (c : CellState) (res : Resource)
    → (has "disk" (problems c res) ≡ ltb_ℤ c.available_resources.disk_mb res.disk_mb)
      × (has "memory" (problems c res) ≡ ltb_ℤ c.available_resources.memory_mb res.memory_mb)
      × (has "containers" (problems c res) ≡ ltb_ℤ c.available_resources.containers (pos 1))
unfolding problems
has-problems c res = has-problem_set _ _ _

-- What the availability of a cell satisfies while the auctioneer places work on it: nothing is
-- negative, and every count fits its machine word.
pub record IsSound (c : CellState) : Type 0 where
  pub memory : pos 0 ≤ℤ c.available_resources.memory_mb
  pub memory_word : InWord half32 c.available_resources.memory_mb
  pub disk : pos 0 ≤ℤ c.available_resources.disk_mb
  pub disk_word : InWord half32 c.available_resources.disk_mb
  pub containers : pos 0 ≤ℤ c.available_resources.containers
  pub containers_word : InWord half64 c.available_resources.containers

-- A valid request that fits is subtracted exactly, with no wrap-around.
pub record SubtractsExactly (r : Resources) (res : Resource) : Type 0 where
  pub memory : (subtract r res).memory_mb ≡ r.memory_mb -ℤ res.memory_mb
  pub disk : (subtract r res).disk_mb ≡ r.disk_mb -ℤ res.disk_mb
  pub containers : (subtract r res).containers ≡ r.containers -ℤ pos 1

resource_valid→nonneg :
    (res : Resource) → resource_valid res ≡ true → (pos 0 ≤ℤ res.memory_mb) × (pos 0 ≤ℤ res.disk_mb)
unfolding resource_valid
resource_valid→nonneg res h = ground arith

-- The difference of two integers 0 ≤ b ≤ a of a word.
diff-InWord : (half : ℕ) (a b : ℤ) → pos 0 ≤ℤ b → b ≤ℤ a → InWord half a → InWord half (a -ℤ b)
unfolding ◌-ℤ◌
diff-InWord half a b nonneg le word = ground arith

word-diff : (half : ℕ) (a b : ℤ) → pos 0 ≤ℤ b → b ≤ℤ a → InWord half a → wrap half (a -ℤ b) ≡ a -ℤ b
word-diff half a b nonneg le word = wrap-InWord half (a -ℤ b) (diff-InWord half a b nonneg le word)

module _ (c : CellState) (res : Resource) (s : IsSound c) (v : resource_valid res ≡ true)
    (f : Fits c res) where
  -- A valid request that fits is subtracted without wrap-around.
  pub subtract-exact : SubtractsExactly c.available_resources res
  unfolding subtract
  subtract-exact = record {
    memory = word-diff half32 _ _ (resource_valid→nonneg res v).0 f.memory s.memory_word;
    disk = word-diff half32 _ _ (resource_valid→nonneg res v).1 f.disk s.disk_word;
    containers = word-diff half64 _ (pos 1) (omega arith) f.container s.containers_word;
  }

  pub subtract-IsSound :
      (d : CellState) → d.available_resources ≡ subtract c.available_resources res → IsSound d
  subtract-IsSound d e =
      let x = subtract-exact in
      let n = resource_valid→nonneg res v in
      record {
        memory = rw (e, x.memory) (omega (int_laws, f.memory));
        memory_word = rw (e, x.memory) (diff-InWord half32 _ _ n.0 f.memory s.memory_word);
        disk = rw (e, x.disk) (omega (int_laws, f.disk));
        disk_word = rw (e, x.disk) (diff-InWord half32 _ _ n.1 f.disk s.disk_word);
        containers = rw (e, x.containers) (omega (int_laws, f.container));
        containers_word =
            rw (e, x.containers)
              (diff-InWord half64 _ _ (omega arith) f.container s.containers_word);
      }
