-- ===== src/Cleanup/Calls.antt =====
-- The calls that the cleanup makes, and the number that it reports.
use rep.Base.{
  ℕ, ◌+◌, ◌<◌, String, ◌≡◌, refl, sym, ◌∙◌, ap, inl, inr, List, [], ◌∷◌, ◌++◌, map, Option, none,
  some, arith,
}
use rep.Base.Slices.{length}
use rep.Base.Int.{pos, ◌+ℤ◌, int64, half64, wrap-InWord}
use rep.Base.Result.{Result, ok, err, Result-cases}
use rep.Models.{ActualLrp, ActualLrpGroup, Container}
use rep.Services.{
  Call, ExecutorError, Env, World, ask, actual_lrp_groups, remove_evacuating_actual_lrp,
  list_containers, stop_container, send_metric,
}
use rep.Cleanup.{
  stranded_evacuating_actual_lrps, remove_stranded_lrp, remove_stranded, stop_all,
  signal_running_containers, clean_up,
}

-- The evacuating LRPs of the groups.
unfoldable pub with_evacuating : Option ActualLrp → List ActualLrp → List ActualLrp
with_evacuating none rest = rest
with_evacuating (some lrp) rest = lrp ∷ rest

unfoldable pub stranded : List ActualLrpGroup → List ActualLrp
stranded [] = []
stranded (group ∷ more) = with_evacuating group.evacuating_lrp (stranded more)

abbrev pub removal : ActualLrp → Call
removal lrp = remove_evacuating_actual_lrp lrp.key lrp.instance_key

abbrev pub stop_of : Container → Call
stop_of container = stop_container container.guid

-- The calls so far, after further calls in the order given: the last one stands first.
abbrev pub followed_by : List Call → List Call → List Call
followed_by calls [] = calls
followed_by calls (c ∷ cs) = followed_by (c ∷ calls) cs

module _ {S : Type 0} (env : Env S) where
  stop_all-calls :
      (cs : List Container) (w : World S)
      → (stop_all env cs w).1.calls ≡ followed_by w.calls (map stop_of cs)
  unfolding stop_all
  stop_all-calls [] w = refl
  stop_all-calls (c ∷ cs) w = stop_all-calls cs (ask env (stop_container c.guid) w).1

  -- What a run of the loop from a count of `n` does, for the LRPs that it meets.
  abbrev Removes : List ActualLrpGroup → List ActualLrp → Type 0
  Removes groups lrps =
      (n : ℕ) (w : World S)
      → n + length lrps < half64
      → ((remove_stranded env (pos n) groups w).0 ≡ pos (n + length lrps))
        × ((remove_stranded env (pos n) groups w).1.calls ≡ followed_by w.calls (map removal lrps))

  counted : (n : ℕ) → n + 1 < half64 → int64 (pos n +ℤ pos 1) ≡ pos (n + 1)
  unfolding ◌+ℤ◌
  counted n bound = ground (arith, wrap-InWord half64 (pos n +ℤ pos 1))

  round :
      (group : ActualLrpGroup) (o : Option ActualLrp) (more : List ActualLrpGroup)
      (lrps : List ActualLrp)
      → group.evacuating_lrp ≡ o
      → Removes more lrps
      → Removes (group ∷ more) (with_evacuating o lrps)
  unfolding remove_stranded remove_stranded_lrp with_evacuating
  round group none more lrps e h n w bound = rw e (h n w bound)
  round group (some lrp) more lrps e h n w bound =
      rw (e, counted n (omega arith))
        (let rest = h (n + 1) (ask env (removal lrp) w).1 (omega arith) in
          (rest.0 ∙ ap pos (omega arith), rest.1))

  remove_stranded_lem : (groups : List ActualLrpGroup) → Removes groups (stranded groups)
  unfolding remove_stranded stranded
  remove_stranded_lem [] n w bound = (ap pos (omega arith), refl)
  remove_stranded_lem (group ∷ more) n w bound =
      round group group.evacuating_lrp more (stranded more) refl (remove_stranded_lem more) n w
        bound

  -- The calls after the metric, by what ListContainers answers.
  abbrev pub signals : Result ExecutorError (List Container) → List Call
  signals (ok containers) = list_containers ∷ map stop_of containers
  signals (err _) = list_containers ∷ []

  signal-calls :
      (w : World S)
      → (signal_running_containers env w).1.calls
        ≡ followed_by w.calls (signals (env.answer list_containers w.outside).0)
  unfolding signal_running_containers
  signal-calls w = elim (Result-cases (env.answer list_containers w.outside).0) [
    | inl (containers, e) ↦ rw e (stop_all-calls containers (ask env list_containers w).1)
    | inr (x, e) ↦ rw e refl
  ]

  followed_by-append :
      (calls xs ys : List Call)
      → followed_by calls (xs ++ ys) ≡ followed_by (followed_by calls xs) ys
  followed_by-append calls [] ys = refl
  followed_by-append calls (x ∷ xs) ys = followed_by-append (x ∷ calls) xs ys

  -- If the BBS answers with the groups of the cell, fewer than 2^63 of them with an evacuating LRP, the
  -- cleanup removes exactly the evacuating LRPs, in their order and whatever the BBS answers, reports
  -- their number, and signals every container that the executor lists in some later state to stop.
  pub clean_up-calls :
      (cell_id : String) (w : World S) (s : S) (groups : List ActualLrpGroup)
      → env.answer (actual_lrp_groups cell_id) w.outside ≡ (ok groups, s)
      → length (stranded groups) < half64
      → (later : S) × ((clean_up env cell_id w).1.calls
          ≡ followed_by (actual_lrp_groups cell_id ∷ w.calls) (
              map removal (stranded groups)
              ++ send_metric stranded_evacuating_actual_lrps (pos (length (stranded groups)))
                ∷ signals (env.answer list_containers later).0))
  unfolding clean_up
  clean_up-calls cell_id w s groups e bound =
      let w1 : World S = record { outside = s; calls = actual_lrp_groups cell_id ∷ w.calls } in
      let removed = remove_stranded_lem groups 0 w1 (omega (arith, bound)) in
      let count : (remove_stranded env (pos 0) groups w1).0 ≡ pos (length (stranded groups)) =
        removed.0 ∙ ap pos (omega arith) in
      let metric = send_metric stranded_evacuating_actual_lrps (pos (length (stranded groups))) in
      let w3 = (ask env metric (remove_stranded env (pos 0) groups w1).1).1 in
      let new = signals (env.answer list_containers w3.outside).0 in
      (
        w3.outside,
        rw (e, count)
            (signal-calls w3
              ∙ ap (λ c. followed_by (metric ∷ c) new) removed.1
              ∙ sym (followed_by-append w1.calls (map removal (stranded groups)) (metric ∷ new))),
      )
