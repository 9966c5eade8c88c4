-- ===== src/Harmonizer/Stream.antt =====
-- generator.go's OperationStream and harmonizer/event_consumer.go's Run: a goroutine that turns the events
-- of the executor into operations, and the consumer that pushes them, joined by an unbuffered channel.
use rep.Base.{◌≡◌, String, Bool, true, false, List, [], ◌∷◌, ◌++◌, Option, none, some}
use rep.Operation.{Operation, container_operation}

-- An executor.Event: a LifecycleEvent, by the guid of its container, or another.
pub data ExecutorEvent : Type 0 where
  lifecycle : String → ExecutorEvent
  other_event : ExecutorEvent

-- operationFromContainer.
unfoldable pub operation_from_container : String → Operation
operation_from_container guid = container_operation guid

-- What the goroutine sends for an event, if anything.
unfoldable pub operation_of : ExecutorEvent → Option Operation
unfolding operation_from_container
operation_of (lifecycle guid) = some (operation_from_container guid)
operation_of other_event = none

-- The consumer: in its loop, or returned because the stream was closed or because of a signal.
pub data Consumer : Type 0 where
  consuming stream_closed signaled : Consumer

-- The events that Next has still to return before its error, the operation that the goroutine waits to
-- send, whether it has closed opChan, the consumer, and what the consumer has pushed.
pub record Stream : Type 0 where
  pub events : List ExecutorEvent
  pub sending : Option Operation
  pub closed : Bool
  pub consumer : Consumer
  pub queue : List Operation

-- OperationStream after it has subscribed, with the consumer that it returns the channel to.
abbrev pub subscribed : List ExecutorEvent → Stream
subscribed events = record {
  events = events;
  sending = none;
  closed = false;
  consumer = consuming;
  queue = [];
}

pub data Step (s : Stream) : Stream → Type 0 where
  -- e, err := events.Next(), and what follows of the round
  next :
      {event : ExecutorEvent} {events : List ExecutorEvent}
      → s.sending ≡ none
      → s.events ≡ event ∷ events
      → Step s (record s { events = events; sending = operation_of event })
  -- err != nil
  close : s.sending ≡ none → s.events ≡ [] → s.closed ≡ false → Step s (record s { closed = true })
  -- op, ok := <-stream
  push :
      {operation : Operation}
      → s.sending ≡ some operation
      → s.consumer ≡ consuming
      → Step s (record s { sending = none; queue = s.queue ++ operation ∷ [] })
  see_closed :
      s.closed ≡ true → s.consumer ≡ consuming → Step s (record s { consumer = stream_closed })
  signal : s.consumer ≡ consuming → Step s (record s { consumer = signaled })

pub data Steps (s : Stream) : Stream → Type 0 where
  stay : Steps s s
  then_step : {t u : Stream} → Steps s t → Step t u → Steps s u
