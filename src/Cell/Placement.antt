-- ===== src/Cell/Placement.antt =====
-- Placing work on a cell (AddLRP and AddTask of resources.go), each guarded by ResourceMatch, as a
-- step relation.
use rep.Base.{◌+◌, ◌≡◌, refl, ◌∙◌, true, List, [], ◌∷◌, ◌++◌, none}
use rep.Base.Slices.{length, length-append}
use rep.Base.Int.{ℤ, pos, ◌+ℤ◌, int_laws}
use rep.Cell.{
  Resources, Resource, Lrp, Task, CellState, resource_valid, add_lrp, add_task, resource_match,
}
use rep.Cell.Capacity.{IsSound, resource_match_iff, subtract-exact, subtract-IsSound}

-- Cell `d` comes from `c` by adding valid work that matched when it was added.
pub data Places (c : CellState) : CellState → Type 0 where
  start : Places c c
  lrp :
      {d : CellState} (l : Lrp)
      → Places c d
      → resource_valid l.resource ≡ true
      → resource_match d l.resource ≡ none
      → Places c (add_lrp d l)
  task :
      {d : CellState} (t : Task)
      → Places c d
      → resource_valid t.resource ≡ true
      → resource_match d t.resource ≡ none
      → Places c (add_task d t)

-- Whatever valid work is placed where it matches, availability stays in its words and never
-- becomes negative.
pub Places-IsSound : {c d : CellState} → IsSound c → Places c d → IsSound d
unfolding add_lrp add_task
Places-IsSound s start = s
Places-IsSound s (lrp {d = e} l p v m) =
    subtract-IsSound e l.resource (Places-IsSound s p) v ((resource_match_iff e l.resource).0 m) _
      refl
Places-IsSound s (task {d = e} t p v m) =
    subtract-IsSound e t.resource (Places-IsSound s p) v ((resource_match_iff e t.resource).0 m) _
      refl

-- The memory and disk of a list of resources.
pub total : (Resource → ℤ) → List Resource → ℤ
total f [] = pos 0
total f (r ∷ rs) = f r +ℤ total f rs

pub lrp_resources : List Lrp → List Resource
lrp_resources [] = []
lrp_resources (l ∷ ls) = l.resource ∷ lrp_resources ls

pub task_resources : List Task → List Resource
task_resources [] = []
task_resources (t ∷ ts) = t.resource ∷ task_resources ts

-- What the work on the cell holds, with what is available.
abbrev pub committed : (Resources → ℤ) → (Resource → ℤ) → CellState → ℤ
committed avail f c =
    avail c.available_resources
    +ℤ total f (lrp_resources c.lrps)
    +ℤ total f (task_resources c.tasks)

total-lrp :
    (f : Resource → ℤ) (ls : List Lrp) (l : Lrp)
    → total f (lrp_resources (ls ++ l ∷ [])) ≡ total f (lrp_resources ls) +ℤ f l.resource
unfolding total lrp_resources
total-lrp f [] l = omega int_laws
total-lrp f (x ∷ ls) l = rw (total-lrp f ls l) (omega int_laws)

total-task :
    (f : Resource → ℤ) (ts : List Task) (t : Task)
    → total f (task_resources (ts ++ t ∷ [])) ≡ total f (task_resources ts) +ℤ f t.resource
unfolding total task_resources
total-task f [] l = omega int_laws
total-task f (x ∷ ts) t = rw (total-task f ts t) (omega int_laws)

pub committed_containers : CellState → ℤ
committed_containers c = c.available_resources.containers +ℤ pos (length c.lrps + length c.tasks)

-- What is available and what the work holds add up to the same in both states.
pub record Conserves (c d : CellState) : Type 0 where
  pub memory :
      committed (λ r. r.memory_mb) (λ r. r.memory_mb) d
      ≡ committed (λ r. r.memory_mb) (λ r. r.memory_mb) c
  pub disk :
      committed (λ r. r.disk_mb) (λ r. r.disk_mb) d ≡ committed (λ r. r.disk_mb) (λ r. r.disk_mb) c
  pub containers : committed_containers d ≡ committed_containers c

module _ (c : CellState) (s : IsSound c) where
  add_lrp-Conserves :
      (l : Lrp)
      → resource_valid l.resource ≡ true
      → resource_match c l.resource ≡ none
      → Conserves c (add_lrp c l)
  unfolding add_lrp committed_containers
  add_lrp-Conserves l v m =
      let x = subtract-exact c l.resource s v ((resource_match_iff c l.resource).0 m) in
      record {
        memory = rw (x.memory, total-lrp) (omega int_laws);
        disk = rw (x.disk, total-lrp) (omega int_laws);
        containers = rw x.containers (omega (int_laws, length-append c.lrps (l ∷ [])));
      }

  add_task-Conserves :
      (t : Task)
      → resource_valid t.resource ≡ true
      → resource_match c t.resource ≡ none
      → Conserves c (add_task c t)
  unfolding add_task committed_containers
  add_task-Conserves t v m =
      let x = subtract-exact c t.resource s v ((resource_match_iff c t.resource).0 m) in
      record {
        memory = rw (x.memory, total-task) (omega int_laws);
        disk = rw (x.disk, total-task) (omega int_laws);
        containers = rw x.containers (omega (int_laws, length-append c.tasks (t ∷ [])));
      }

Conserves-trans : {c d e : CellState} → Conserves c d → Conserves d e → Conserves c e
Conserves-trans p q = record {
  memory = q.memory ∙ p.memory;
  disk = q.disk ∙ p.disk;
  containers = q.containers ∙ p.containers;
}

-- Placing any valid work that matches, LRPs and Tasks in any order, keeps the sum of the available
-- memory, disk and containers and of those that the placed work holds.
pub Places-Conserves : {c d : CellState} → IsSound c → Places c d → Conserves c d
Places-Conserves s start = record { memory = refl; disk = refl; containers = refl }
Places-Conserves s (lrp {d = e} l p v m) =
    Conserves-trans (Places-Conserves s p) (add_lrp-Conserves e (Places-IsSound s p) l v m)
Places-Conserves s (task {d = e} t p v m) =
    Conserves-trans (Places-Conserves s p) (add_task-Conserves e (Places-IsSound s p) t v m)
