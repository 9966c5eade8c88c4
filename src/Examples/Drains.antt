-- ===== src/Examples/Drains.antt =====
-- The theorem on a sync that empties the cell, applied to a cell with one running LRP.
use rep.Base.{
  String, ◌==◌, eq_iff, Bool, true, false, List, [], ◌∷◌, ◌≡◌, refl, sym, ap, subst, Memᴰ, inl, inr,
  none, arith,
}
use rep.Base.Tests.{if◌then◌else◌, Bool-cases}
use rep.Base.Int.{ℤ, wrap}
use rep.Base.Result.{Result, ok, err}
use rep.Models.{Container, running}
use rep.Conversion.Tags.{
  tag, tag_of, actual_lrp_key_from_tags, actual_lrp_instance_key_from_container,
  actual_lrp_net_info_from_container,
}
use rep.Base.GoMap.{lookup}
use rep.Services.{
  ExecutorError, container_not_found, Call, Reply, Env, World, list_containers, get_container,
  delete_container, evacuate_running_actual_lrp, evacuating,
}
use rep.Services.Latch.{Latches}
use rep.Services.Stays.{allocates}
use rep.Evacuator.{Evacuator, Steps, evacuating_cell, returned, complete, checking}
use rep.Evacuator.Drained.{HasGuid, Executor, Drains, execute_each}
use rep.Generator.{
  executor_lrps_tasks, tasks_lrps_executor, store_tasks, store_groups, store_containers,
}
use rep.Generator.Sources.{AllFetched, fetched}
use rep.Harmonizer.{sync}
use rep.Harmonizer.Drains.{sync-Drains}
use rep.Examples.{library, lrp_container, reply, lrp_key}

-- The outside world tells whether the container is still there.
abbrev held : Bool → List Container
held true = lrp_container running ∷ []
held false = []

abbrev find : String → Bool → Result ExecutorError Container
find guid true = if guid == "instance" then ok (lrp_container running) else err container_not_found
find guid false = err container_not_found

abbrev draining_answer : (c : Call) → Bool → Reply c × Bool
draining_answer list_containers s = (ok (held s), s)
draining_answer (get_container guid) s = (find guid s, s)
draining_answer (delete_container guid) s = (ok tt, if guid == "instance" then false else s)
draining_answer evacuating s = (true, s)
draining_answer (evacuate_running_actual_lrp _ _ _ _) s = ((false, none), s)
draining_answer c s = (reply c true, s)

abbrev draining_env : Env Bool
draining_env = record { lib = library; answer = draining_answer }

held-finds : (s : Bool) (c : Container) → Memᴰ c (held s) → find c.guid s ≡ ok c
held-finds true c (Memᴰ.head e) = subst (λ x. find x.guid true ≡ ok x) (sym e) refl
held-finds true c (Memᴰ.tail m) = elim m [ ]
held-finds false c m = elim m [ ]

held-found :
    (s : Bool) (guid : String) (c : Container)
    → find guid s ≡ ok c
    → Memᴰ c (held s) × (c.guid ≡ guid)
held-found true guid c h =
    (Memᴰ.head (ground (arith, h)), ground (arith, h, eq_iff guid "instance"))
held-found false guid c h = absurd (ground (arith, h))

held-keeps :
    (c : Call) (s : Bool) (guid : String)
    → allocates c ≡ false
    → HasGuid guid (held (draining_answer c s).1)
    → HasGuid guid (held s)
held-keeps (delete_container g) true guid h (c, m, e) = elim (Bool-cases (g == "instance")) [
  | inl same ↦ absurd (elim (rw same at m) [ ])
  | inr apart ↦ (c, rw apart at m, e)
]
held-keeps (delete_container g) false guid h (c, m, e) = elim (Bool-cases (g == "instance")) [
  | inl same ↦ (c, rw same at m, e)
  | inr apart ↦ (c, rw apart at m, e)
]
held-keeps c s guid h has = has

held-deletes :
    (s : Bool) (guid : String) → HasGuid guid (held (if guid == "instance" then false else s)) → ⊥
held-deletes true guid (c, m, e) = elim (Bool-cases (guid == "instance")) [
  | inl same ↦ elim (rw same at m) [ ]
  | inr apart ↦ last c (rw apart at m) e apart
]
  where
    last :
        {g : String} (c : Container)
        → Memᴰ c (held true)
        → c.guid ≡ g
        → (g == "instance") ≡ false
        → ⊥
    last {g} c (Memᴰ.head e) same apart =
        ground (arith, ap (λ (x : Container). x.guid) e, same, apart, eq_iff g "instance")
    last c (Memᴰ.tail m) same apart = elim m [ ]
held-deletes false guid (c, m, e) = elim (Bool-cases (guid == "instance")) [
  | inl same ↦ elim (rw same at m) [ ]
  | inr apart ↦ elim (rw apart at m) [ ]
]

abbrev executor : Executor draining_env
executor = record {
  containers = held;
  lists = λ s. refl;
  finds = held-finds;
  found = held-found;
  keeps = held-keeps;
  deletes = held-deletes;
}

draining_env-Latches : Latches draining_env
draining_env-Latches = record { sets = λ s. refl; keeps = λ c s h. refl }

running-Drains : Drains draining_env "cell" 60 (lrp_container running)
unfolding tag tag_of lookup actual_lrp_key_from_tags actual_lrp_instance_key_from_container
    actual_lrp_net_info_from_container wrap
running-Drains = record {
  lifecycle = refl;
  key = lrp_key;
  key_read = refl;
  instance_key = record { instance_guid = "instance"; cell_id = "cell" };
  instance_read = refl;
  known = tt;
  released = λ h. (_, refl, λ s. refl);
}

held-Drains : (s : Bool) (c : Container) → Memᴰ c (held s) → Drains draining_env "cell" 60 c
held-Drains true c (Memᴰ.head e) = subst (Drains draining_env "cell" 60) (sym e) running-Drains
held-Drains true c (Memᴰ.tail m) = elim m [ ]
held-Drains false c m = elim m [ ]

abbrev full : World Bool
full = record { outside = true; calls = [] }

full-AllFetched : AllFetched (fetched draining_env "cell" true)
unfolding fetched store_tasks store_groups store_containers
full-AllFetched = record { containers = refl; lrps = refl; tasks = refl }

abbrev drained : World Bool
drained =
    let (ops, synced) = sync draining_env "cell" executor_lrps_tasks tasks_lrps_executor full in
    execute_each draining_env "cell" 60 ops synced

sync-Drains_example :
    (executor.containers drained.outside ≡ [])
    × ((polling_interval : ℤ) (e : Evacuator Bool)
        → e.phase ≡ evacuating_cell
        → e.poller ≡ checking
        → e.world ≡ drained
        → (f : Evacuator Bool) × Steps draining_env polling_interval e f
          × (f.phase ≡ returned complete))
sync-Drains_example =
    sync-Drains draining_env executor "cell" 60 executor_lrps_tasks tasks_lrps_executor full
      draining_env-Latches held-Drains (λ s. (refl, refl, refl)) refl full-AllFetched
