-- ===== src/ActionHandler.antt =====
-- HSS_rtc/HSS_rtc_lib/components/action_handler.py, `ActionHandler`: the actions of an execution, each
-- with its trigger, one after the other.
pub mod Config
pub mod Orders
pub mod Run
mod Guarded
mod Verdict
mod Waits
mod Actions
mod Release
mod Tests
use st_tools.Prelude.{
  ℕ, ◌+◌, String, Bool, true, false, not, ◌&&◌, Option, none, some, List, [], ◌∷◌, ◌++◌, last?, eqb,
  if◌then◌else◌,
}
use st_tools.Prelude.Int.{ℤ, pos, negsuc, ◌-ℤ◌, ltb_ℤ, magnitude, above, below}
use st_tools.LoadMonitor
use st_tools.LoadMonitor.{is_stable, target_load}
use st_tools.ErrorMonitor

-- An entry of `__actions`; a number that it does not give is -1.
pub record Action : Type 0 where
  pub id : String
  pub trigger_load : ℤ
  pub trigger_time : ℤ
  pub max_trigger_time : ℤ
  pub max_action_time : ℤ
  pub time_running_traffic_after_execution : ℤ
  pub stop_on_fail : Bool
  pub report_not_valid : Bool
  pub add_to_verdict : Bool
  pub disable_load_monitor : Bool
  pub stop_error_scenario_register : Bool
  pub allow_info_to_summary : Bool

-- What the handler reads and writes of EXECUTION and of its test case; a verdict of `false` is a failure.
-- Without a monitor of errors there is a fake one in its place, which has no rate.
pub record Executor : Type 0 where
  pub execution_with_traffic : Bool
  pub wait_for_action_handler : Bool
  pub stop_phase_pending : Bool
  pub verdict : Bool
  pub suite_failed : Bool
  pub action_results : List (String × Bool)
  pub action_infos : List (String × String)
  pub load_monitor : LoadMonitor.Monitor
  pub load_ready : Bool
  pub error_monitor : ErrorMonitor.Monitor
  pub has_error_monitor : Bool

-- What is sent back for an order.
pub data Reply : Type 0 where
  ordered info_ok info_not_allowed check_started not_configured check_ok check_failed not_handled :
      Reply

pub record Handler : Type 0 where
  pub running : Bool
  pub ready : Bool
  pub has_node : Bool
  pub executing_cmd : Bool
  pub error_code : ℤ
  pub force_exit : Bool
  pub replies : List Reply
  pub executor : Executor

abbrev pub on_executor : (Executor → Executor) → Handler → Handler
on_executor f h = record h { executor = f h.executor }

abbrev pub fail_verdict : Action → Handler → Handler
fail_verdict a h = if a.add_to_verdict then on_executor (λ e. record e { verdict = false }) h else h

abbrev pub report_status : Action → Handler → Handler
report_status a h =
    if a.report_not_valid then on_executor (λ e. record e { suite_failed = true }) h else h

abbrev pub request_stop_phase : Handler → Handler
request_stop_phase = on_executor (λ e. record e { stop_phase_pending = true })

abbrev pub is_minus_one : ℤ → Bool
is_minus_one i = eqb (magnitude i) 1 && ltb_ℤ i (pos 0)

abbrev pub same : ℤ → ℤ → Bool
same i j = eqb (above i + below j) (above j + below i)

-- `is_timed`
abbrev pub is_timed : Action → Bool
is_timed a = ltb_ℤ (pos 0) a.max_action_time

-- A second of waiting for a trigger: the time that passed, what became of the monitor of the load, and
-- what other threads have done to the handler meanwhile.
pub record Tick : Type 0 where
  pub elapsed : ℕ
  pub load_monitor : LoadMonitor.Monitor
  pub force_exit : Bool
  pub is_shut_down : Bool

-- What waiting for a trigger comes to; `waiting` when no more ticks are given.
pub data Wait : Type 0 where
  reached refused waiting died : Wait

abbrev pub tick : Tick → Handler → Handler
tick t h = record h {
  executor = record h.executor { load_monitor = t.load_monitor };
  force_exit = t.force_exit;
  running = if t.is_shut_down then false else h.running;
  has_node = if t.is_shut_down then false else h.has_node;
  ready = if t.is_shut_down then false else h.ready;
}

abbrev pub is_load_there : Action → Handler → Bool
is_load_there a h =
    is_stable (last? h.executor.load_monitor.load_db)
    && same (pos (target_load h.executor.load_monitor)) a.trigger_load

-- The maximum time has passed.
abbrev pub expire : Action → Handler → Handler
expire a h = request_stop_phase (report_status a (fail_verdict a h))

-- `triggered`, with the time that the trigger and its maximum have left.
unfoldable pub triggered : Action → ℤ → ℤ → List Tick → Handler → Wait × Handler
triggered a time max [] h =
    if not h.running then (refused, h) else if h.force_exit then (refused, h) else (waiting, h)
triggered a time max (t ∷ l) h =
    let h' = tick t h in
    let time' = time -ℤ pos t.elapsed in
    let max' = max -ℤ pos t.elapsed in
    let again = triggered a a.trigger_time max' l h' in
    let on = triggered a time' max' l h' in
    if not h.running
    then (refused, h)
    else if h.force_exit
    then (refused, h)
    else if not (is_minus_one a.max_trigger_time) && ltb_ℤ max' (pos 0)
    then (refused, expire a h')
    else if is_minus_one a.trigger_load
    then if ltb_ℤ time' (pos 0) then (reached, h') else on
    else if not h.executor.load_ready
    then (died, h')
    else if is_load_there a h'
    then if ltb_ℤ time' (pos 0) then (reached, h') else on
    else again

-- `stop_cmd`; if an exit is forced it returns before the command is known to have stopped.
unfoldable pub stop_cmd : Action → Handler → Handler
stop_cmd a h =
    if h.has_node
    then if h.force_exit then h else record (fail_verdict a h) { executing_cmd = false }
    else record h { executing_cmd = false }

unfoldable pub shutdown : Action → Handler → Handler
unfolding stop_cmd
shutdown a h =
    let h' =
      if h.running && h.has_node
      then (let s = if h.executing_cmd then stop_cmd a h else h in
          record s { has_node = false; ready = false })
      else h in
    record h' { running = false }
