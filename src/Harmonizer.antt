-- ===== src/Harmonizer.antt =====
-- harmonizer/bulker.go and harmonizer/event_consumer.go: the two processes that push operations on the
-- operation queue, and generator.go's OperationStream, which feeds the second. The queue of
-- code.cloudfoundry.org/operationq is seen as the list of the operations pushed, the oldest first.
pub mod Bulk
pub mod Convergence
pub mod Drains
pub mod IterationOrder
pub mod Interval
pub mod Stream
pub mod Delivery
use rep.Base.{◌≡◌, String, ℕ, suc, Bool, true, false, List, [], ◌∷◌, ◌++◌, Option, none, some}
use rep.Base.Int.{ℤ, ◌-ℤ◌}
use rep.Base.GoMap.{GoMap}
use rep.Base.Result.{Result, ok, err}
use rep.Services.{Env, World, M, pure, ask, ◌>>=◌, ◌>>◌, now, send_duration}
use rep.Operation.{Operation}
use rep.Generator.{BatchError, Order, batch_operations}

abbrev pub rep_bulk_sync_duration : String
rep_bulk_sync_duration = "RepBulkSyncDuration"

-- for _, operation := range ops { b.queue.Push(operation) }
unfoldable pub values : GoMap Operation → List Operation
values [] = []
values ((guid, operation) ∷ more) = operation ∷ values more

-- What sync pushes, by what BatchOperations returned.
unfoldable pub pushed : Result BatchError (GoMap Operation) → List Operation
unfolding values
pushed (ok batch) = values batch
pushed (err _) = []

-- Bulker.Run between two rounds of its loop: the interval, the interval that the timer was last set to,
-- whether evacuateNotify is still a channel (it is nil after the notice) and whether Run has returned.
pub record Bulker (S : Type 0) : Type 0 where
  pub interval : ℤ
  pub timer : ℤ
  pub evacuate_notify : Bool
  pub returned : Bool
  pub queue : List Operation
  pub world : World S

abbrev pub new_bulker : {S : Type 0} → ℤ → World S → Bulker S
new_bulker poll_interval w = record {
  interval = poll_interval;
  timer = poll_interval;
  evacuate_notify = true;
  returned = false;
  queue = [];
  world = w;
}

-- What a select receives; the orders are those of the batch that follows.
pub data Event : Type 0 where
  ticked notified : Order → Order → Event
  signaled : Event

module _ {S : Type 0} (env : Env S) (cell_id : String) where
  unfoldable pub sync : Order → Order → M S (List Operation)
  unfolding pushed
  sync calls arrivals = do
    start_time ← ask env now
    batch ← batch_operations env cell_id calls arrivals
    end_time ← ask env now
    ask env (send_duration rep_bulk_sync_duration (end_time -ℤ start_time))
    pure (pushed batch)

  -- b.sync(logger); timer.Reset(interval)
  unfoldable pub synced : Order → Order → Bulker S → Bulker S
  synced calls arrivals b =
      let (operations, w) = sync calls arrivals b.world in
      record b { timer = b.interval; queue = b.queue ++ operations; world = w }

  -- A round of the loop on what its select receives.
  unfoldable pub receive : ℤ → Event → Bulker S → Bulker S
  unfolding synced
  receive evacuation_poll_interval (ticked calls arrivals) b = synced calls arrivals b
  receive evacuation_poll_interval (notified calls arrivals) b =
      synced calls arrivals
        (record b { evacuate_notify = false; interval = evacuation_poll_interval })
  receive evacuation_poll_interval signaled b = record b { returned = true }

-- A select can receive an event while Run has not returned, and never from a nil channel.
abbrev pub CanReceive : {S : Type 0} → Bulker S → Event → Type 0
CanReceive b (ticked _ _) = b.returned ≡ false
CanReceive b (notified _ _) = (b.returned ≡ false) × (b.evacuate_notify ≡ true)
CanReceive b signaled = b.returned ≡ false

-- Runs of the loop, by what its selects received, the latest first. Between two rounds, the outside
-- world may change.
pub data Rounds {S : Type 0} (env : Env S) (cell_id : String) (evacuation_poll_interval : ℤ)
    (b : Bulker S) : List Event → Bulker S → Type 0 where
  no_rounds : Rounds env cell_id evacuation_poll_interval b [] b
  then_round :
      {events : List Event} {c : Bulker S}
      → Rounds env cell_id evacuation_poll_interval b events c
      → (event : Event) → CanReceive c event
      → Rounds env cell_id evacuation_poll_interval b
          (event ∷ events)
          (receive env cell_id evacuation_poll_interval event c)
  elsewhere :
      {events : List Event} {c : Bulker S}
      → Rounds env cell_id evacuation_poll_interval b events c
      → (s : S)
      → Rounds env cell_id evacuation_poll_interval b events
          (record c { world = record c.world { outside = s } })
