-- ===== src/Presence/Events.antt =====
-- maintain/cell_presence_client.go's CellEvents: the goroutine between the watcher of locket, which sends
-- the keys that disappeared and at last closes its channel, and the receiver of the events.
use rep.Base.{
  String, ℕ, ◌+◌, Bool, true, false, List, [], ◌∷◌, ◌++◌, map, Option, none, some, ◌≡◌, refl, sym,
  ap, ◌∙◌, arith,
}
use mathlib.Core.List.{append_assoc, append-nil}
use rep.Presence.{Consul, disappeared_cells}

-- The slices of keys that the watcher has still to send before it closes the channel, the event that the
-- goroutine waits to send, whether the goroutine has returned, how often it has signaled the watcher, and
-- the events received, by their cell ids.
pub record CellEvents : Type 0 where
  pub disappeared : List (List String)
  pub sending : Option (List String)
  pub returned : Bool
  pub signals : ℕ
  pub events : List (List String)

abbrev pub watched : List (List String) → CellEvents
watched disappeared = record {
  disappeared = disappeared;
  sending = none;
  returned = false;
  signals = 0;
  events = [];
}

pub data Step (consul : Consul) (c : CellEvents) : CellEvents → Type 0 where
  -- keys, ok := <-disappeared, and the loop over the keys
  receive :
      {keys : List String} {more : List (List String)}
      → c.returned ≡ false
      → c.sending ≡ none
      → c.disappeared ≡ keys ∷ more
      → Step consul c
          (record c { disappeared = more; sending = some (disappeared_cells consul keys) })
  -- events <- models.NewCellDisappearedEvent(cellIDs)
  send :
      {cell_ids : List String}
      → c.sending ≡ some cell_ids
      → Step consul c (record c { sending = none; events = c.events ++ cell_ids ∷ [] })
  -- !ok
  see_closed :
      c.returned ≡ false
      → c.sending ≡ none
      → c.disappeared ≡ []
      → Step consul c (record c { returned = true; signals = c.signals + 1 })

pub data Steps (consul : Consul) (c : CellEvents) : CellEvents → Type 0 where
  stay : Steps consul c c
  then_step : {d e : CellEvents} → Steps consul c d → Step consul d e → Steps consul c e

abbrev pub in_flight : Option (List String) → List (List String)
in_flight none = []
in_flight (some cell_ids) = cell_ids ∷ []

disappeared_cells_lem :
    (consul : Consul) (keys : List String) → disappeared_cells consul keys ≡ map consul.base keys
unfolding disappeared_cells
disappeared_cells_lem consul [] = refl
disappeared_cells_lem consul (key ∷ keys) =
    ap (λ ids. consul.base key ∷ ids) (disappeared_cells_lem consul keys)

module _ (consul : Consul) (keys : List (List String)) where
  record Conserves (c : CellEvents) : Type 0 where
    all :
        c.events ++ (in_flight c.sending ++ map (map consul.base) c.disappeared)
        ≡ map (map consul.base) keys
    running : c.returned ≡ false → c.signals ≡ 0
    returned : c.returned ≡ true → (c.signals ≡ 1) × (c.sending ≡ none) × (c.disappeared ≡ [])

  Step-Conserves : {c d : CellEvents} → Conserves c → Step consul c d → Conserves d
  Step-Conserves {c} h (receive {keys = k} {more = more} going free head) = record {
    all = rw (disappeared_cells_lem consul k) (rw (free, head) at h.all);
    running = h.running;
    returned = λ r. absurd (ground (arith, going, r));
  }
  Step-Conserves {c} h (send {cell_ids = cell_ids} sending) = record {
    all =
        append_assoc c.events (cell_ids ∷ []) (map (map consul.base) c.disappeared)
        ∙ (rw sending at h.all);
    running = h.running;
    returned = λ r. absurd (ground (arith, sending, h.returned r));
  }
  Step-Conserves {c} h (see_closed going free drained) = record {
    all = h.all;
    running = λ r. cc;
    returned = λ r. (ap (λ n. n + 1) (h.running going), free, drained);
  }

  Steps-Conserves : {c : CellEvents} → Steps consul (watched keys) c → Conserves c
  Steps-Conserves stay = record { all = refl; running = λ r. refl; returned = λ r. cc }
  Steps-Conserves (then_step steps step) = Step-Conserves (Steps-Conserves steps) step

  -- The events received so far, followed by the one on its way and those still to come, are one for each
  -- slice of keys that the watcher sends, in its order, and the cell ids of an event are the results of
  -- path.Base for the keys of its slice, in their order; and when the goroutine returns, all of the events
  -- were received and the watcher was signaled exactly once.
  pub Steps-events :
      {c : CellEvents}
      → Steps consul (watched keys) c
      → (c.events ++ (in_flight c.sending ++ map (map consul.base) c.disappeared)
          ≡ map (map consul.base) keys)
        × (c.returned ≡ true → (c.events ≡ map (map consul.base) keys) × (c.signals ≡ 1))
  Steps-events {c} steps =
      let h = Steps-Conserves steps in
      (
        h.all,
        λ r.
            let (signaled, free, drained) = h.returned r in
            (sym (append-nil c.events) ∙ (rw (free, drained) at h.all), signaled),
      )
