-- ===== src/Harmonizer/Bulk.antt =====
-- What a sync of the bulker pushes, by what the executor and the BBS know.
use mathlib.Core.Path.{subst}
use rep.Base.{
  String, ◌==◌, eq_iff, [], ◌∷◌, Option, some, ◌≡◌, refl, sym, ◌∙◌, ◌↔◌, inl, inr, Memᴰ, arith,
}
use rep.Base.Tests.{Bool-cases}
use rep.Base.GoMap.{GoMap, lookup}
use rep.Base.Result.{Result, ok, err, Result-cases}
use rep.Services.{Env, World, now}
use rep.Operation.{Operation}
use rep.Generator.{
  BatchError, Order, Source, from_executor, from_lrp_groups, from_tasks, sent_error, Fetched,
  finish, make_batch,
}
use rep.Generator.Batch.{expected, lookup-make_batch}
use rep.Base.Maps.{Unique}
use rep.Generator.Unique.{make_batch-Unique}
use rep.Generator.Sources.{
  Reads, AllFetched, Sent, fetched, finish_outcome, batch_operations-fetched,
}
use rep.Harmonizer.{values, pushed, sync}

Memᴰ-lookup :
    (op : Operation) (g : String) (m : GoMap Operation) → lookup g m ≡ some op → Memᴰ op (values m)
unfolding lookup values
Memᴰ-lookup op g [] h = cc
Memᴰ-lookup op g ((k, v) ∷ m) h = elim (Bool-cases (k == g)) [
  | inl same ↦ Memᴰ.head (ground (arith, rw same at h))
  | inr apart ↦ Memᴰ.tail (Memᴰ-lookup op g m (rw apart at h))
]

lookup-Memᴰ :
    (op : Operation) (m : GoMap Operation)
    → Unique m
    → Memᴰ op (values m)
    → (g : String) × (lookup g m ≡ some op)
unfolding lookup values
lookup-Memᴰ op [] u h = elim h [ ]
lookup-Memᴰ op ((k, v) ∷ m) u (Memᴰ.head e) = (k, ground (arith, eq_iff k k, e))
lookup-Memᴰ op ((k, v) ∷ m) u (Memᴰ.tail h) =
    let (g, found) = lookup-Memᴰ op m u.1 h in (g, ground (arith, eq_iff k g, found, u.0))

-- The operation that what was fetched calls for at a guid.
abbrev pub operation_for : Fetched → String → Option Operation
operation_for f guid =
    expected guid (lookup guid f.containers) (lookup guid f.instances) (lookup guid f.evacuating)
      (lookup guid f.tasks)

pushed-make_batch :
    (f : Fetched) (op : Operation)
    → Memᴰ op (values (make_batch f.containers f.instances f.evacuating f.tasks))
      ↔ ((guid : String) × (operation_for f guid ≡ some op))
pushed-make_batch f op =
    let at : (g : String)
        → lookup g (make_batch f.containers f.instances f.evacuating f.tasks) ≡ operation_for f g =
      λ g. lookup-make_batch g f.containers f.instances f.evacuating f.tasks in
    let batch = make_batch f.containers f.instances f.evacuating f.tasks in
    (
      λ h.
          let (g, found) =
            lookup-Memᴰ op batch (make_batch-Unique f.containers f.instances f.evacuating f.tasks)
              h in
          (g, sym (at g) ∙ found),
      λ h. Memᴰ-lookup op h.0 batch (at h.0 ∙ h.1),
    )

pushed-finish :
    (f : Fetched) (arrivals : Order) (op : Operation)
    → AllFetched f
    → Memᴰ op (pushed (finish f arrivals)) ↔ ((guid : String) × (operation_for f guid ≡ some op))
unfolding pushed
pushed-finish f arrivals op all =
    rw
      (((finish_outcome f arrivals).0 (make_batch f.containers f.instances f.evacuating f.tasks)).1
        (all, refl))
      (pushed-make_batch f op)

not_sent :
    (f : Fetched) (e : BatchError) (source : Source)
    → sent_error f source ≡ some e
    → AllFetched f
    → ⊥
unfolding sent_error
not_sent f e from_executor h all = ground (arith, all.containers)
not_sent f e from_lrp_groups h all = ground (arith, all.lrps)
not_sent f e from_tasks h all = ground (arith, all.tasks)

pushed-unless_ok :
    (r : Result BatchError (GoMap Operation))
    → ((batch : GoMap Operation) → r ≡ ok batch → ⊥)
    → pushed r ≡ []
unfolding pushed
pushed-unless_ok (ok batch) h = absurd (h batch refl)
pushed-unless_ok (err e) h = refl

pushed-failed :
    (f : Fetched) (arrivals : Order) (e : BatchError) → Sent f e → pushed (finish f arrivals) ≡ []
pushed-failed f arrivals e sent =
    pushed-unless_ok (finish f arrivals)
      (λ batch h. not_sent f e sent.0 sent.1 (((finish_outcome f arrivals).0 batch).0 h).0)

nothing_in_nil : (op : Operation) → Memᴰ op [] → ⊥
nothing_in_nil op m = elim m [ ]

pushed_iff :
    (f : Fetched) (arrivals : Order) (op : Operation)
    → Memᴰ op (pushed (finish f arrivals))
      ↔ (AllFetched f × ((guid : String) × (operation_for f guid ≡ some op)))
pushed_iff f arrivals op = elim (Result-cases (finish f arrivals)) [
  | inl (batch, done) ↦
      let all = (((finish_outcome f arrivals).0 batch).0 done).0 in
      (
        λ m. (all, (pushed-finish f arrivals op all).0 m),
        λ h. (pushed-finish f arrivals op all).1 h.1,
      )
  | inr (e, failed) ↦
      let sent = (finish_outcome f arrivals).1 e failed in
      (
        λ m. absurd (nothing_in_nil op (subst (Memᴰ op) (pushed-failed f arrivals e sent) m)),
        λ h. absurd (not_sent f e sent.0 sent.1 h.0),
      )
]

module _ {S : Type 0} (env : Env S) (cell_id : String) where
  -- A sync, where the three services only read, pushes an operation exactly if none of them answers with
  -- an error and some guid calls for the operation, by its container, its LRPs and its task at the time
  -- of the sync.
  pub sync-pushes :
      (calls arrivals : Order) (w : World S)
      → Reads env cell_id
      → (op : Operation)
      → let f = fetched env cell_id (env.answer now w.outside).1 in
        Memᴰ op (sync env cell_id calls arrivals w).0
        ↔ (AllFetched f × ((guid : String) × (operation_for f guid ≡ some op)))
  unfolding sync
  sync-pushes calls arrivals w reads op =
      let at = (env.answer now w.outside).1 in
      let started : World S = record { outside = at; calls = now ∷ w.calls } in
      rw (batch_operations-fetched env cell_id calls arrivals started reads)
        (pushed_iff (fetched env cell_id at) arrivals op)
