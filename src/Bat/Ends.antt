-- ===== src/Bat/Ends.antt =====
-- How the thread of a BAT ends.
use st_tools.Prelude.{◌≡◌, ◌⊎◌, String, false, List, [], ◌∷◌}
use st_tools.Bat.Run.{
  Bat, Part, breaks, State, starting, running, pending_to_stop, stopping, stopped, failed, Output,
  alias_sent, line, timeout, end_of_file, Event, output, stop_called, Turn, next, left, raised,
}

-- A state in which the loop goes on.
abbrev pub IsLive : State → Type 0
IsLive starting = Unit
IsLive running = Unit
IsLive pending_to_stop = Unit
IsLive stopping = Unit
IsLive s = ⊥

-- A state in which the loop is left; a BAT that failed has one of two exit codes.
abbrev pub IsOver : State → String → Type 0
IsOver stopping code = Unit
IsOver stopped code = Unit
IsOver failed code = (code ≡ "faulty BAT") ⊎ (code ≡ "Problem starting MC")
IsOver s code = ⊥

abbrev pub Breaks : Part → Type 0
Breaks breaks = Unit
Breaks p = ⊥

-- The output has an end, the monitor could not be started, a line has not the words that it is read
-- for, or the statistics raise.
abbrev pub MayRaise : Output → Type 0
MayRaise end_of_file = Unit
MayRaise (alias_sent false) = Unit
MayRaise (timeout false) = Unit
MayRaise (line d l) = Breaks d ⊎ Breaks l
MayRaise o = ⊥

abbrev pub SomeRaise : List Event → Type 0
SomeRaise [] = ⊥
SomeRaise (stop_called ∷ l) = SomeRaise l
SomeRaise (output o t ∷ l) = MayRaise o ⊎ SomeRaise l

abbrev pub Ends : Type 0 → Turn → Type 0
Ends R (next b) = IsLive b.state
Ends R (left b) = IsOver b.state b.exit_code
Ends R (raised b) = R
