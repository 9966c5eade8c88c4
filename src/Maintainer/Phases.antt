-- ===== src/Maintainer/Phases.antt =====
-- The phases of the maintainer's Run and the processes that it has started.
use rep.Base.{ℕ, ◌≤◌, Bool, true, false, Option, none, some, arith}
use rep.Maintainer.{
  Phase, pinging, sleeping, creating, starting, heartbeating, stopping, awaiting_exit, returned,
  HeartbeatError, Process,
}

-- No heartbeat is under way.
abbrev pub is_idle : Phase → Bool
is_idle pinging = true
is_idle sleeping = true
is_idle creating = true
is_idle starting = false
is_idle heartbeating = false
is_idle stopping = false
is_idle awaiting_exit = false
is_idle (returned _) = false

abbrev pub is_starting : Phase → Bool
is_starting starting = true
is_starting pinging = false
is_starting sleeping = false
is_starting creating = false
is_starting heartbeating = false
is_starting stopping = false
is_starting awaiting_exit = false
is_starting (returned _) = false

abbrev pub has_returned : Phase → Bool
has_returned (returned _) = true
has_returned pinging = false
has_returned sleeping = false
has_returned creating = false
has_returned starting = false
has_returned heartbeating = false
has_returned stopping = false
has_returned awaiting_exit = false

-- How many processes an exit channel tells to run.
abbrev pub running : Option (Option HeartbeatError) → ℕ
running none = 1
running (some _) = 0

abbrev pub live : Option Process → ℕ
live none = 0
live (some p) = running p.exit

-- The process was sent a signal.
abbrev pub is_told : Option Process → Bool
is_told none = false
is_told (some p) = p.signaled

pub live-le : (p : Option Process) → live p ≤ 1
live-le p = ground arith
