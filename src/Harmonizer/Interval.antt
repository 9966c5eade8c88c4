-- ===== src/Harmonizer/Interval.antt =====
-- The interval at which the bulker syncs, before and after the evacuation notice.
use rep.Base.{◌≡◌, refl, ◌∙◌, String, ℕ, suc, ◌≤◌, List, [], ◌∷◌, arith}
use rep.Base.Tests.{if◌then◌else◌}
use rep.Base.Int.{ℤ}
use rep.Services.{Env, World}
use rep.Harmonizer.{
  Bulker, new_bulker, Event, ticked, notified, signaled, synced, receive, CanReceive, Rounds,
  no_rounds, then_round, elsewhere,
}

-- How many notices were received.
unfoldable pub notices : List Event → ℕ
notices [] = 0
notices (ticked _ _ ∷ events) = notices events
notices (notified _ _ ∷ events) = suc (notices events)
notices (signaled ∷ events) = notices events

module _ {S : Type 0} (env : Env S) (cell_id : String) (poll_interval evacuation_poll_interval : ℤ)
    (w : World S) where
  -- The bulker is slowed down or sped up exactly if it has received the notice.
  record HasInterval (events : List Event) (b : Bulker S) : Type 0 where
    notified_once : notices events ≡ (if b.evacuate_notify then 0 else 1)
    interval : b.interval ≡ (if b.evacuate_notify then poll_interval else evacuation_poll_interval)
    timer : b.timer ≡ b.interval

  receive-HasInterval :
      (events : List Event) (b : Bulker S) (event : Event)
      → HasInterval events b
      → CanReceive b event
      → HasInterval (event ∷ events) (receive env cell_id evacuation_poll_interval event b)
  unfolding notices receive synced
  receive-HasInterval events b (ticked calls arrivals) h can = record {
    notified_once = h.notified_once;
    interval = h.interval;
    timer = refl;
  }
  receive-HasInterval events b (notified calls arrivals) h can = record {
    notified_once = ground (arith, h.notified_once, can.1);
    interval = refl;
    timer = refl;
  }
  receive-HasInterval events b signaled h can = record {
    notified_once = h.notified_once;
    interval = h.interval;
    timer = h.timer;
  }

  Rounds-HasInterval :
      {events : List Event} {b : Bulker S}
      → Rounds env cell_id evacuation_poll_interval (new_bulker poll_interval w) events b
      → HasInterval events b
  unfolding notices
  Rounds-HasInterval no_rounds = record { notified_once = refl; interval = refl; timer = refl }
  Rounds-HasInterval (then_round {events = events} {c = c} rounds event can) =
      receive-HasInterval events c event (Rounds-HasInterval rounds) can
  Rounds-HasInterval (elsewhere rounds s) =
      let h = Rounds-HasInterval rounds in
      record { notified_once = h.notified_once; interval = h.interval; timer = h.timer }

  -- Whatever the bulker has received since it started, it took the evacuation notice at most once, and its
  -- timer is set to the evacuation poll interval if it took the notice, and to the poll interval if not.
  pub Rounds-timer :
      {events : List Event} {b : Bulker S}
      → Rounds env cell_id evacuation_poll_interval (new_bulker poll_interval w) events b
      → (notices events ≤ 1)
        × (b.timer ≡ (if b.evacuate_notify then poll_interval else evacuation_poll_interval))
        × (notices events ≡ (if b.evacuate_notify then 0 else 1))
  Rounds-timer {b = b} rounds =
      let h = Rounds-HasInterval rounds in
      (ground (arith, h.notified_once), h.timer ∙ h.interval, h.notified_once)
