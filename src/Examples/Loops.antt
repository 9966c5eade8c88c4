-- ===== src/Examples/Loops.antt =====
-- The theorems on the loops of the evacuator, the cleanup, the bulker and the event consumer, applied.
use rep.Base.{String, ℕ, ◌<◌, Bool, true, false, ◌≡◌, refl, ◌↔◌, [], ◌∷◌, ◌++◌, none, some, Memᴰ}
use rep.Base.Int.{pos}
use rep.Base.Result.{ok}
use rep.Services.{Call, Reply, Env, list_containers}
use rep.Operation.{container_operation, residual_task}
use rep.Generator.{executor_lrps_tasks, tasks_lrps_executor}
use rep.Generator.Sources.{AllFetched, fetched}
use rep.Evacuator.{
  Evacuator, Steps, ready, notify, check, finish, complete, returned, stay, then_step, done,
  is_empty, all_containers_evacuated, evacuate_all,
}
use rep.Evacuator.Loop.{IsEvacuated, at_check, evacuate_all-ends}
use rep.Evacuator.Outcomes.{FoundEmpty, Steps-FoundEmpty}
use rep.Harmonizer.{sync}
use rep.Harmonizer.Bulk.{operation_for, sync-pushes}
use rep.Harmonizer.Stream.{
  Steps as StreamSteps, stay as stay_here, then_step as and_step, lifecycle, other_event, Stream,
  subscribed, next, push, close, see_closed, stream_closed, operation_of, operation_from_container,
}
use rep.Harmonizer.Delivery.{called_for, in_flight, Steps-delivery}
use rep.Examples.{env, steady, reply, library}

-- A cell without containers.
abbrev empty_reply : (c : Call) → Bool → Reply c
empty_reply list_containers s = ok []
empty_reply c s = reply c s

abbrev empty_env : Env Bool
empty_env = record { lib = library; answer = λ c s. (empty_reply c s, s) }

evacuate_all-ends_example :
    ((evacuate_all empty_env (pos 10) 3 steady).0 ≡ true)
    ↔ ((k : ℕ) × (k < 3) × IsEvacuated empty_env (at_check empty_env (pos 10) k steady))
evacuate_all-ends_example = evacuate_all-ends empty_env (pos 10) steady 3

abbrev evacuated : Evacuator Bool
evacuated = record {
  phase = returned complete;
  poller = done;
  world = record { outside = false; calls = list_containers ∷ [] };
}

evacuation : Steps empty_env (pos 10) (ready steady) evacuated
unfolding all_containers_evacuated is_empty
evacuation = then_step (then_step (then_step stay (notify refl)) (check refl)) (finish refl refl)

Steps-FoundEmpty_example : FoundEmpty empty_env (pos 10) steady evacuated
Steps-FoundEmpty_example = Steps-FoundEmpty empty_env (pos 10) steady evacuation refl

sync-pushes_example :
    Memᴰ (residual_task "lost") (sync env "cell" executor_lrps_tasks tasks_lrps_executor steady).0
    ↔ (AllFetched (fetched env "cell" false)
        × ((guid : String) × (operation_for (fetched env "cell" false) guid
              ≡ some (residual_task "lost"))))
sync-pushes_example =
    sync-pushes env "cell" executor_lrps_tasks tasks_lrps_executor steady (λ s. (refl, refl, refl))
      (residual_task "lost")

abbrev streamed : Stream
streamed = record {
  events = [];
  sending = none;
  closed = true;
  consumer = stream_closed;
  queue = container_operation "instance" ∷ [];
}

stream_steps : StreamSteps (subscribed (other_event ∷ lifecycle "instance" ∷ [])) streamed
unfolding operation_of operation_from_container
stream_steps =
    and_step
      (and_step
        (and_step (and_step (and_step stay_here (next refl refl)) (next refl refl))
          (push refl refl))
        (close refl refl refl))
      (see_closed refl refl)

Steps-delivery_example :
    (streamed.queue ++ (in_flight streamed.sending ++ called_for streamed.events)
      ≡ called_for (other_event ∷ lifecycle "instance" ∷ []))
    × (streamed.consumer ≡ stream_closed
        → streamed.queue ≡ called_for (other_event ∷ lifecycle "instance" ∷ []))
Steps-delivery_example = Steps-delivery (other_event ∷ lifecycle "instance" ∷ []) stream_steps
