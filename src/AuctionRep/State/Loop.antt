-- ===== src/AuctionRep/State/Loop.antt =====
-- The loop of State over the containers, against what the list of containers holds.
use mathlib.Core.List.{append_assoc}
use mathlib.Core.Bool.{true≢false}
use rep.Base.{
  ℕ, ◌+◌, ◌≤◌, ◌<◌, String, ◌==◌, eq_iff, Bool, true, false, ◌≡◌, refl, sym, ◌∙◌, ap, List, [], ◌∷◌,
  ◌++◌, arith,
}
use rep.Base.Tests.{if◌then◌else◌}
use rep.Base.Slices.{length}
use rep.Base.Int.{pos, ◌+ℤ◌, half64, wrap-InWord}
use rep.Base.Result.{Result, ok, err}
use rep.Cell.{ActualLrpKey, Lrp, Task}
use rep.Models.{
  Container, ContainerState, reserved, initializing, created, running, completed, other_state,
}
use rep.Conversion.Tags.{
  lifecycle_tag, lrp_lifecycle, task_lifecycle, ConversionError, tag, actual_lrp_key_from_tags,
}
use rep.Services.{Library}
use rep.AuctionRep.State.{
  container_is_starting, is_starting, reported_lrp, reported_task, report_case, Reported,
  count_starting, report_lrp, report_tagged, report_containers,
}

keyed : Container → Result ConversionError ActualLrpKey → List Lrp
keyed c (ok key) = reported_lrp c key ∷ []
keyed c (err _) = []

-- The LRP of a container, if its lifecycle is an LRP's and its tags hold a key.
lrps_of : Library → Container → List Lrp
unfolding keyed
lrps_of lib c =
    let found = keyed c (actual_lrp_key_from_tags lib c.tags) in
    if tag c.tags lifecycle_tag == lrp_lifecycle then found else []

-- The task of a container, if its lifecycle is a task's.
tasks_of : Container → List Task
tasks_of c = if tag c.tags lifecycle_tag == task_lifecycle then reported_task c ∷ [] else []

-- A container is starting while it is reserved, initializing or created.
starting_in : ContainerState → ℕ
starting_in reserved = 1
starting_in initializing = 1
starting_in created = 1
starting_in running = 0
starting_in completed = 0
starting_in (other_state _) = 0

abbrev starting_of : Container → ℕ
starting_of c = starting_in c.state

pub all_lrps : Library → List Container → List Lrp
all_lrps lib [] = []
all_lrps lib (c ∷ cs) = lrps_of lib c ++ all_lrps lib cs

pub all_tasks : List Container → List Task
all_tasks [] = []
all_tasks (c ∷ cs) = tasks_of c ++ all_tasks cs

pub starting : List Container → ℕ
starting [] = 0
starting (c ∷ cs) = starting_of c + starting cs

append_nil : {A : Type 0} (xs : List A) → xs ++ [] ≡ xs
append_nil [] = refl
append_nil (x ∷ xs) = ap (λ l. x ∷ l) (append_nil xs)

-- `r'` adds to `r` the LRPs and tasks, and nothing else.
record Extends (r r' : Reported) (new_lrps : List Lrp) (new_tasks : List Task) : Type 0 where
  lrps : r'.lrps ≡ r.lrps ++ new_lrps
  tasks : r'.tasks ≡ r.tasks ++ new_tasks
  count : r'.starting_container_count ≡ r.starting_container_count

report_lrp-Extends :
    (r : Reported) (c : Container) (key : Result ConversionError ActualLrpKey)
    → Extends r (report_lrp r c key) (keyed c key) []
unfolding report_lrp keyed
report_lrp-Extends r c (ok key) = record {
  lrps = refl;
  tasks = sym (append_nil r.tasks);
  count = refl;
}
report_lrp-Extends r c (err e) = record {
  lrps = sym (append_nil r.lrps);
  tasks = sym (append_nil r.tasks);
  count = refl;
}

report_case-Extends :
    (r : Reported) (c : Container) (key : Result ConversionError ActualLrpKey)
    (is_lrp is_task : Bool)
    → (is_lrp ≡ true → is_task ≡ false)
    → Extends r
        (report_case r c key is_lrp is_task)
        (if is_lrp then keyed c key else [])
        (if is_task then reported_task c ∷ [] else [])
unfolding report_case
report_case-Extends r c key true true h = absurd (true≢false (h refl))
report_case-Extends r c key true false h = report_lrp-Extends r c key
report_case-Extends r c key false true h = record {
  lrps = sym (append_nil r.lrps);
  tasks = refl;
  count = refl;
}
report_case-Extends r c key false false h = record {
  lrps = sym (append_nil r.lrps);
  tasks = sym (append_nil r.tasks);
  count = refl;
}

one_lifecycle :
    (lifecycle : String)
    → (lifecycle == lrp_lifecycle) ≡ true
    → (lifecycle == task_lifecycle) ≡ false
one_lifecycle lifecycle h = rw ((eq_iff lifecycle lrp_lifecycle).0 h) refl

report_tagged-Extends :
    (lib : Library) (r : Reported) (c : Container)
    → Extends r (report_tagged lib r c (tag c.tags lifecycle_tag)) (lrps_of lib c) (tasks_of c)
unfolding report_tagged lrps_of tasks_of
report_tagged-Extends lib r c =
    report_case-Extends r c (actual_lrp_key_from_tags lib c.tags) _ _
      (one_lifecycle (tag c.tags lifecycle_tag))

starting_in_lem :
    (state : ContainerState) → starting_in state ≡ (if is_starting state then 1 else 0)
unfolding starting_in is_starting
starting_in_lem reserved = refl
starting_in_lem initializing = refl
starting_in_lem created = refl
starting_in_lem running = refl
starting_in_lem completed = refl
starting_in_lem (other_state _) = refl

count_starting_lem :
    (r : Reported) (c : Container) (n : ℕ)
    → r.starting_container_count ≡ pos n
    → n + starting_of c < half64
    → ((count_starting r c).starting_container_count ≡ pos (n + starting_of c))
      × ((count_starting r c).lrps ≡ r.lrps)
      × ((count_starting r c).tasks ≡ r.tasks)
unfolding count_starting container_is_starting ◌+ℤ◌
count_starting_lem r c n h bound =
    ground
      (arith, starting_in_lem c.state, wrap-InWord half64 (r.starting_container_count +ℤ pos 1))

-- The loop over the containers, from any state of its variables on.
pub report_containers_lem :
    (lib : Library) (r : Reported) (cs : List Container) (n : ℕ)
    → r.starting_container_count ≡ pos n
    → n + starting cs < half64
    → ((report_containers lib r cs).lrps ≡ r.lrps ++ all_lrps lib cs)
      × ((report_containers lib r cs).tasks ≡ r.tasks ++ all_tasks cs)
      × ((report_containers lib r cs).starting_container_count ≡ pos (n + starting cs))
unfolding report_containers all_lrps all_tasks starting
report_containers_lem lib r [] n h bound =
    (sym (append_nil r.lrps), sym (append_nil r.tasks), h ∙ ap pos (omega arith))
report_containers_lem lib r (c ∷ cs) n h bound =
    let counted = count_starting_lem r c n h (omega arith) in
    let new = report_tagged-Extends lib (count_starting r c) c in
    let rest =
      report_containers_lem lib
        (report_tagged lib (count_starting r c) c (tag c.tags lifecycle_tag)) cs (n + starting_of c)
        (new.count ∙ counted.0) (omega arith) in
    (
      rest.0
          ∙ ap (λ l. l ++ all_lrps lib cs) (new.lrps ∙ ap (λ l. l ++ lrps_of lib c) counted.1)
          ∙ append_assoc r.lrps (lrps_of lib c) (all_lrps lib cs),
      rest.1
          ∙ ap (λ l. l ++ all_tasks cs) (new.tasks ∙ ap (λ l. l ++ tasks_of c) counted.2)
          ∙ append_assoc r.tasks (tasks_of c) (all_tasks cs),
      rest.2 ∙ ap pos (omega arith),
    )

-- A container counts at most once.
pub starting-length : (cs : List Container) → starting cs ≤ length cs
unfolding starting
starting-length [] = omega arith
starting-length (c ∷ cs) = ground (arith, starting_in_lem c.state, starting-length cs)
