-- ===== src/Bat/Run.antt =====
-- `BAT_base.run`: the thread that follows the output of run_titansim.
use st_tools.Prelude.{
  ℕ, suc, ◌*◌, String, Bool, true, false, Option, none, some, List, [], ◌∷◌, ◌++◌, last?,
  if◌then◌else◌, ◌==◌,
}
use st_tools.Prelude.Int.{ℤ, pos, ◌-ℤ◌, ltb_ℤ}

-- `execution_state`; `unset` is ''.
pub data State : Type 0 where
  unset starting running pending_to_stop stopping stopped failed : State

-- What a line says of a diaproxy or of a load plotter: nothing, its name, or that it is up in words in
-- which the name is not found, so that `index` or a subscript raises.
pub data Part : Type 0 where
  absent breaks : Part
  names : String → Part

-- What happens to the thread: what `expect` finds, with the time that has passed, or a call of `stop`
-- by another thread. `alias_sent` says whether the monitor can be started; a line, that is not one for
-- debugging, may name a diaproxy and a load plotter; `timeout` says whether the statistics, which a BAT
-- that is running then reads by `error_template` and `check_result`, raise nothing.
pub data Output : Type 0 where
  alias_sent timeout : Bool → Output
  finished : Output
  line : Part → Part → Output
  traffic_finished main_terminated mc_problem end_of_file interrupt : Output

pub data Event : Type 0 where
  output : Output → ℕ → Event
  stop_called : Event

pub record Bat : Type 0 where
  pub state : State
  pub time_for_start : ℤ
  pub time_for_shutdown : ℤ
  pub exit_code : String
  pub need_clean : Bool
  pub has_node : Bool
  pub has_monitor : Bool
  pub interrupts_sent : ℕ
  pub diaproxys : List String
  pub loadplotter : Option String

-- How a turn of the loop ends: with the next one, with the end of the loop, or with an exception.
pub data Turn : Type 0 where
  next left raised : Bat → Turn

abbrev pub bat_of : Turn → Bat
bat_of (next b) = b
bat_of (left b) = b
bat_of (raised b) = b

abbrev pub turn_to : State → Bat → Bat
turn_to s b = record b { state = s }

abbrev pub is_stopped : State → Bool
is_stopped stopped = true
is_stopped s = false

-- `stop_traffic` sends ctrl-C.
unfoldable pub stop_traffic : Bat → Bat
stop_traffic b =
    if is_stopped b.state
    then b
    else record b { interrupts_sent = suc b.interrupts_sent; has_monitor = false }

-- `release_monitor`
abbrev pub release_monitor : Bat → Bat
release_monitor b = record b { has_monitor = false }

abbrev pub spend_start : ℕ → Bat → Bat
spend_start t b = record b { time_for_start = b.time_for_start -ℤ pos t }

abbrev pub spend_shutdown : ℕ → Bat → Bat
spend_shutdown t b = record b { time_for_shutdown = b.time_for_shutdown -ℤ pos t }

abbrev pub set_loadplotter : Part → Bat → Turn
set_loadplotter absent b = next b
set_loadplotter breaks b = raised b
set_loadplotter (names x) b = next (record b { loadplotter = some x })

-- The diaproxy first.
abbrev pub announce : Part → Part → Bat → Turn
announce absent l b = set_loadplotter l b
announce breaks l b = raised b
announce (names x) l b = set_loadplotter l (record b { diaproxys = b.diaproxys ++ x ∷ [] })

abbrev pub on_alias : Bool → State → Bat → Turn
on_alias true starting b = next (record b { state = running; has_monitor = true })
on_alias false starting b = raised b
on_alias ok s b = next b

abbrev pub on_finished : State → Bat → Turn
on_finished starting b = left (record b { state = failed; exit_code = "faulty BAT" })
on_finished failed b = left (record b { state = failed; exit_code = "faulty BAT" })
on_finished s b = left (turn_to stopped b)

abbrev pub on_mc_problem : State → Bat → Turn
on_mc_problem starting b = left (record b { state = failed; exit_code = "Problem starting MC" })
on_mc_problem s b = left (turn_to stopped b)

abbrev pub on_line : Part → Part → ℕ → State → Bat → Turn
on_line d l t pending_to_stop b = next (stop_traffic (turn_to stopping b))
on_line d l t starting b = announce d l (spend_start t b)
on_line d l t stopping b = announce d l (spend_shutdown t b)
on_line d l t s b = announce d l b

abbrev pub start_expired : Bat → Bat
start_expired b = if ltb_ℤ b.time_for_start (pos 0) then turn_to pending_to_stop b else b

-- A shutdown that has no time left ends the loop.
abbrev pub or_left : Bat → Turn
or_left b = if ltb_ℤ (pos 0) b.time_for_shutdown then next b else left b

abbrev pub on_timeout : Bool → ℕ → State → Bat → Turn
on_timeout ok t starting b = next (start_expired (spend_start t b))
on_timeout ok t failed b = next b
on_timeout ok t running b = if ok then next b else raised b
on_timeout ok t pending_to_stop b = next (stop_traffic (turn_to stopping b))
on_timeout ok t stopping b = or_left (spend_shutdown t b)
on_timeout ok t unset b = raised b
on_timeout ok t stopped b = raised b

abbrev pub on_interrupt : ℕ → State → Bat → Turn
on_interrupt t stopping b = or_left (spend_shutdown t b)
on_interrupt t s b = next (stop_traffic (turn_to stopping b))

unfoldable pub on_output : Output → ℕ → Bat → Turn
unfolding stop_traffic
on_output (alias_sent ok) t b = on_alias ok b.state b
on_output finished t b = on_finished b.state b
on_output (line d l) t b = on_line d l t b.state b
on_output traffic_finished t b = next (turn_to pending_to_stop b)
on_output main_terminated t b = next (turn_to stopping b)
on_output mc_problem t b = on_mc_problem b.state b
on_output (timeout ok) t b = on_timeout ok t b.state b
on_output end_of_file t b = raised (release_monitor b)
on_output interrupt t b = on_interrupt t b.state b

abbrev pub stop_from : State → Bat → Bat
stop_from starting b = turn_to pending_to_stop b
stop_from running b = turn_to pending_to_stop b
stop_from s b = b

-- `stop`
unfoldable pub stop : Bat → Bat
stop b = if b.has_node then stop_from b.state b else b

-- The loop, on what happens in order; what comes after its end is not read.
unfoldable pub loop : List Event → Bat → Turn
unfolding on_output stop
loop [] b = next b
loop (stop_called ∷ l) b = loop l (stop b)
loop (output o t ∷ l) b = elim (on_output o t b) [
  | next b' ↦ loop l b'
  | left b' ↦ left b'
  | raised b' ↦ raised b'
]

abbrev pub begin_from : State → ℕ → Bat → Turn
begin_from unset unit b = next (record b {
  state = starting;
  need_clean = true;
  time_for_start = pos (180 * unit);
  time_for_shutdown = pos (120 * unit);
})
begin_from s unit b = raised (record b { need_clean = true })

-- `run` up to its loop, with a node. The times for the start and the shutdown are 180 and 120 seconds,
-- here with `unit` to a second.
unfoldable pub begin : ℕ → Bat → Turn
begin unit b = begin_from b.state unit b

-- `exit_code`: the node answers the lines with an exit code, cut to begin with it, or the command fails.
unfoldable pub read_exit_code : Option (List String) → Bat → Bat
read_exit_code none b = b
read_exit_code (some l) b =
    if b.exit_code == ""
    then elim (last? l) [ none ↦ b | some code ↦ record b { exit_code = code } ]
    else b

-- The tries of `collect_and_clean`, of which there are three, with the answers of the node.
abbrev pub tries : List (Option (List String)) → Bat → Bat
tries [] b = if b.exit_code == "" then record b { exit_code = "Success" } else b
tries (a ∷ l) b = let rest = tries l (read_exit_code a b) in if b.exit_code == "" then rest else b

unfoldable pub collect_and_clean :
    Option (List String) → Option (List String) → Option (List String) → Bat → Bat
unfolding read_exit_code
collect_and_clean x y z b =
    let b' = if b.need_clean then tries (x ∷ y ∷ z ∷ []) b else b in
    release_monitor (record b' { need_clean = false })

-- `release`
unfoldable pub release : Bat → Bat
unfolding stop
release b =
    if b.has_node
    then record (elim b.state [ running ↦ stop b | other ↦ b ]) { has_node = false }
    else b
