-- ===== src/Harmonizer/Delivery.antt =====
-- What the event consumer pushes: the operations of the lifecycle events, each once and in order.
use rep.Base.{◌≡◌, refl, sym, ap, ◌∙◌, true, List, [], ◌∷◌, ◌++◌, Option, none, some, arith}
use mathlib.Core.List.{append_assoc, append-nil}
use rep.Operation.{Operation, container_operation}
use rep.Harmonizer.Stream.{
  ExecutorEvent, lifecycle, other_event, operation_of, operation_from_container, stream_closed,
  Stream, subscribed, Step, next, close, push, see_closed, signal, Steps, stay, then_step,
}

-- The operations that the events call for: one for the container of each lifecycle event.
abbrev pub called_for : List ExecutorEvent → List Operation
called_for [] = []
called_for (lifecycle guid ∷ events) = container_operation guid ∷ called_for events
called_for (other_event ∷ events) = called_for events

abbrev pub in_flight : Option Operation → List Operation
in_flight none = []
in_flight (some operation) = operation ∷ []

abbrev pub to_come : Stream → List Operation
to_come s = in_flight s.sending ++ called_for s.events

called_for-operation_of :
    (event : ExecutorEvent) (events : List ExecutorEvent)
    → in_flight (operation_of event) ++ called_for events ≡ called_for (event ∷ events)
unfolding operation_of operation_from_container
called_for-operation_of (lifecycle guid) events = refl
called_for-operation_of other_event events = refl

module _ (events : List ExecutorEvent) where
  record Conserves (s : Stream) : Type 0 where
    all : s.queue ++ to_come s ≡ called_for events
    closed : s.closed ≡ true → to_come s ≡ []
    ended : s.consumer ≡ stream_closed → to_come s ≡ []

  Step-Conserves : {s t : Stream} → Conserves s → Step s t → Conserves t
  Step-Conserves {s = s} c (next {event = event} {events = more} free head) =
      let same = called_for-operation_of event more ∙ sym (rw free (rw head refl)) in
      record {
        all = ap (λ x. s.queue ++ x) same ∙ c.all;
        closed = λ h. same ∙ c.closed h;
        ended = λ h. same ∙ c.ended h;
      }
  Step-Conserves {s = s} c (close free drained open') = record {
    all = c.all;
    closed = λ h. rw free (rw drained refl);
    ended = c.ended;
  }
  Step-Conserves {s = s} c (push {operation = operation} sending running) = record {
    all = append_assoc s.queue (operation ∷ []) (called_for s.events) ∙ (rw sending at c.all);
    closed = λ h. absurd (ground (arith, sending, c.closed h));
    ended = λ h. cc;
  }
  Step-Conserves c (see_closed closed running) = record {
    all = c.all;
    closed = c.closed;
    ended = λ h. c.closed closed;
  }
  Step-Conserves c (signal running) = record { all = c.all; closed = c.closed; ended = λ h. cc }

  Steps-Conserves : {s : Stream} → Steps (subscribed events) s → Conserves s
  Steps-Conserves stay = record { all = refl; closed = λ h. cc; ended = λ h. cc }
  Steps-Conserves (then_step steps step) = Step-Conserves (Steps-Conserves steps) step

  -- At every moment of the stream, what the consumer has pushed, followed by the operation on its way and by
  -- those of the events still to come, are the operations that the events call for, each once and in their
  -- order; and when the consumer returns because the stream was closed, it has pushed all of them.
  pub Steps-delivery :
      {s : Stream}
      → Steps (subscribed events) s
      → (s.queue ++ (in_flight s.sending ++ called_for s.events) ≡ called_for events)
        × (s.consumer ≡ stream_closed → s.queue ≡ called_for events)
  Steps-delivery {s = s} steps =
      let c = Steps-Conserves steps in
      (c.all, λ h. sym (append-nil s.queue) ∙ ap (λ x. s.queue ++ x) (sym (c.ended h)) ∙ c.all)
