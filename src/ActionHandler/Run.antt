-- ===== src/ActionHandler/Run.antt =====
-- The thread of the handler: `run`.
use st_tools.Prelude.{
  ℕ, Bool, true, false, not, ◌&&◌, Option, List, [], ◌∷◌, ◌++◌, eqb, if◌then◌else◌,
}
use st_tools.Prelude.Int.{ℤ, pos, negsuc, ◌-ℤ◌, ltb_ℤ, magnitude}
use st_tools.Prelude.Exec.{Result, ok, err}
use st_tools.LoadMonitor
use st_tools.ErrorMonitor.{Rate}
use st_tools.ActionHandler.{
  Action, Handler, Tick, Wait, reached, refused, waiting, died, triggered, on_executor,
  fail_verdict, report_status, request_stop_phase, is_minus_one, is_timed, shutdown,
}
use st_tools.ActionHandler.Orders.{Order, read_udp_cmd, start_errors, stop_errors}

-- The answer of the shell to `echo EL:$?`: none at all, one with a line that has a code, or another.
pub data Answer : Type 0 where
  empty unreadable : Answer
  with_code : ℕ → Answer

-- `get_return_code`, while there is a node.
unfoldable pub get_return_code : Answer → ℤ
get_return_code empty = pos 0
get_return_code (with_code n) = pos n
get_return_code unreadable = negsuc 0

-- What the thread sees of a command that runs; when it ends, the shell is asked for its code.
pub data Seen : Type 0 where
  command_ended : Answer → Seen
  new_line at_eof : Seen
  timed_out : ℕ → Option Order → Seen

-- What other threads did before.
pub record Event : Type 0 where
  pub seen : Seen
  pub force_exit : Bool
  pub is_shut_down : Bool

-- How a loop comes out: at its end, by a return from `run`, by an exception, or not yet.
pub data Exit : Type 0 where
  ended returned raised unfinished : Exit

abbrev pub meanwhile : Action → Event → Handler → Handler
meanwhile a e h =
    let h' = record h { force_exit = e.force_exit } in if e.is_shut_down then shutdown a h' else h'

abbrev pub is_zero : ℤ → Bool
is_zero i = eqb (magnitude i) 0

-- A command has ended with a code.
abbrev pub end_command : Action → ℤ → Handler → Handler
end_command a code h =
    let h' = record h { error_code = code } in
    let h'' = if is_zero code then h' else report_status a (fail_verdict a h') in
    record (on_executor
      (λ e. record e { action_results = e.action_results ++ (a.id, is_zero code) ∷ [] }) h'') {
        executing_cmd = false;
      }

-- An action with a maximal time that has none left.
abbrev pub spend_time : Action → ℤ → Handler → Handler
spend_time a left h = if is_timed a && ltb_ℤ left (pos 0) then shutdown a (fail_verdict a h) else h

abbrev pub after_order : (Handler → Exit × Handler) → Result (Unit {0}) × Handler → Exit × Handler
after_order k (ok u, h) = k h
after_order k (err e, h) = (raised, h)

-- The loop over the output of a command; `left` is the time that an action with a maximal time has.
unfoldable pub run_cmd : (Rate → ℕ → Bool) → Action → ℤ → List Event → Handler → Exit × Handler
unfolding read_udp_cmd shutdown get_return_code
run_cmd under a left [] h = (if h.executing_cmd then unfinished else ended, h)
run_cmd under a left (e ∷ l) h =
    let h' = meanwhile a e h in
    let go = λ (t : ℤ) (x : Handler). run_cmd under a t l x in
    if not h'.executing_cmd
    then (ended, h')
    else if h'.force_exit
    then (returned, h')
    else if not h'.has_node
    then (returned, h')
    else elim e.seen [
      | command_ended x ↦ (ended, end_command a (get_return_code x) h')
      | new_line ↦ go left h'
      | at_eof ↦ go left (shutdown a (fail_verdict a h'))
      | timed_out t o ↦
          let left' = left -ℤ pos t in
          after_order (λ x. go left' (spend_time a left' x)) (read_udp_cmd under o a h')
    ]

abbrev pub with_traffic : Bool → (Handler → Handler) → Handler → Handler
with_traffic b f h = if h.executor.execution_with_traffic && b then f h else h

abbrev pub disable_load : Handler → Handler
disable_load = on_executor (λ e. record e { load_monitor = LoadMonitor.disable e.load_monitor })

abbrev pub enable_load : Handler → Handler
enable_load = on_executor (λ e. record e { load_monitor = LoadMonitor.enable e.load_monitor })

abbrev pub before_command : Action → Handler → Handler
before_command a h =
    record (with_traffic a.stop_error_scenario_register stop_errors
      (with_traffic a.disable_load_monitor disable_load h)) { executing_cmd = true }

abbrev pub after_command : Action → Handler → Handler
after_command a h =
    with_traffic a.stop_error_scenario_register start_errors
      (with_traffic a.disable_load_monitor enable_load h)

-- What happens to one action; the last entry is a forced exit while the traffic runs on after it.
pub record Script : Type 0 where
  pub action : Action
  pub ticks : List Tick
  pub events : List Event
  pub is_forced_after : Bool

-- The rest of a turn of the loop over the actions. `true` is `break`.
abbrev pub after_action : Script → Handler → Exit × Bool × Handler
after_action s h =
    let a = s.action in
    let is_failed = a.stop_on_fail && not (is_zero h.error_code) in
    let traffic = h.executor.execution_with_traffic in
    let h' =
      if is_failed
      then (let x = shutdown a h in if traffic then request_stop_phase x else x)
      else h in
    if is_failed && not traffic
    then (ended, true, h')
    else if traffic
        && ltb_ℤ (pos 1) a.time_running_traffic_after_execution
        && h'.running
        && s.is_forced_after
    then (returned, false, record h' { force_exit = true })
    else (ended, false, h')

abbrev pub finish_action : Script → Exit × Handler → Exit × Bool × Handler
finish_action s (ended, h) = after_action s (after_command s.action h)
finish_action s (x, h) = (x, false, h)

abbrev pub on_trigger : (Rate → ℕ → Bool) → Script → Wait × Handler → Exit × Bool × Handler
on_trigger under s (reached, h) =
    finish_action s
      (run_cmd under s.action s.action.max_action_time s.events (before_command s.action h))
on_trigger under s (refused, h) = (returned, false, h)
on_trigger under s (waiting, h) = (unfinished, false, h)
on_trigger under s (died, h) = (raised, false, h)

unfoldable pub run_action : (Rate → ℕ → Bool) → Script → Handler → Exit × Bool × Handler
unfolding triggered run_cmd shutdown
run_action under s h =
    if h.force_exit
    then (returned, false, h)
    else on_trigger under s
        (triggered s.action s.action.trigger_time s.action.max_trigger_time s.ticks h)

-- What `run` does at its end; the action is the last one that it came to.
abbrev pub finish : Action → Handler → Handler
finish a h =
    if not h.executor.execution_with_traffic
    then on_executor (λ e. record e { wait_for_action_handler = false }) h
    else if is_minus_one a.time_running_traffic_after_execution
    then h
    else request_stop_phase h

abbrev pub next_action :
    (Handler → Exit × Handler) → Script → Exit × Bool × Handler → Exit × Handler
next_action k s (ended, true, h) = (ended, finish s.action h)
next_action k s (ended, false, h) = k h
next_action k s (x, b, h) = (x, h)

-- The loop over the actions, of which there is one at least.
unfoldable pub run_all : (Rate → ℕ → Bool) → Script → List Script → Handler → Exit × Handler
unfolding run_action
run_all under s [] h = next_action (λ x. (ended, finish s.action x)) s (run_action under s h)
run_all under s (s' ∷ l) h = next_action (λ x. run_all under s' l x) s (run_action under s h)

unfoldable pub run : (Rate → ℕ → Bool) → Script → List Script → Handler → Exit × Handler
unfolding run_all
run under s l h = run_all under s l (record h { running = true })
