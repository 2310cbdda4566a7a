-- ===== src/ActionHandler/Orders.antt =====
-- The orders that reach an action that runs: read_udp_cmd and what it calls.
use st_tools.Prelude.{
  String, Bool, true, false, not, ◌&&◌, ◌||◌, Option, none, some, ◌∷◌, [], ◌++◌, last?, ℕ, ◌==◌,
  if◌then◌else◌,
}
use st_tools.Prelude.Exec.{Result, ok, err, name_error, attribute_error, run_error}
use st_tools.LoadMonitor.{is_stable}
use st_tools.Bat.{loadgen}
use st_tools.ErrorMonitor.{Rate, start_monitoring, stop_monitoring, skip_check_last_register}
use st_tools.ActionHandler.{
  Action, Handler, Reply, ordered, info_ok, info_not_allowed, check_started, not_configured,
  check_ok, check_failed, not_handled, on_executor, stop_cmd,
}

-- The first word of a message; an order for the summary has a rest or not.
pub data Order : Type 0 where
  cancel_action : Order
  add_info_to_summary : Option String → Order
  start_scenario_stable_check stop_scenario_stable_check other_order : Order

abbrev pub reply : Reply → Handler → Result (Unit {0}) × Handler
reply r h = (ok tt, record h { replies = h.replies ++ r ∷ [] })

abbrev pub add_info : Action → String → Handler → Result (Unit {0}) × Handler
add_info a params h =
    if not (params == "") && a.allow_info_to_summary
    then reply info_ok
        (on_executor (λ e. record e { action_infos = e.action_infos ++ (a.id, params) ∷ [] }) h)
    else reply info_not_allowed h

abbrev pub start_errors : Handler → Handler
start_errors =
    on_executor (λ e. record e { error_monitor = start_monitoring loadgen none e.error_monitor })

abbrev pub stop_errors : Handler → Handler
stop_errors = on_executor (λ e. record e { error_monitor = (stop_monitoring e.error_monitor).1 })

abbrev pub start_check : Action → Handler → Result (Unit {0}) × Handler
start_check a h =
    if a.disable_load_monitor || a.stop_error_scenario_register
    then reply check_started (
        if a.stop_error_scenario_register && h.executor.has_error_monitor
        then start_errors h
        else h)
    else reply not_configured h

abbrev pub stop_check_errors : Action → Handler → Rate × Handler
stop_check_errors a h =
    if a.stop_error_scenario_register
    then (let (rate, m) = stop_monitoring h.executor.error_monitor in
        (rate, on_executor (λ e. record e { error_monitor = skip_check_last_register m }) h))
    else (Rate.no_rate, h)

-- The rate is compared with that of the monitor; the fake one has none.
abbrev pub compare_rate : Bool → Bool → Handler → Result (Unit {0}) × Handler
compare_rate false is_under h = (err attribute_error, h)
compare_rate true is_under h = if is_under then reply check_ok h else reply check_failed h

-- `under` is the test whether a rate is below the one that is allowed.
abbrev pub check_stopped : (Rate → ℕ → Bool) → Action → Handler → Result (Unit {0}) × Handler
check_stopped under a h =
    let (rate, h') = stop_check_errors a h in
    if a.disable_load_monitor && not h'.executor.load_ready
    then (err run_error, h')
    else if not a.disable_load_monitor || is_stable (last? h'.executor.load_monitor.load_db)
    then compare_rate h'.executor.has_error_monitor
        (under rate h'.executor.error_monitor.error_rate) h'
    else reply check_failed h'

-- The fake monitor has no registers either.
abbrev pub stop_check : (Rate → ℕ → Bool) → Action → Handler → Result (Unit {0}) × Handler
stop_check under a h =
    if a.stop_error_scenario_register && not h.executor.has_error_monitor
    then (err attribute_error, h)
    else check_stopped under a h

abbrev pub obey : (Rate → ℕ → Bool) → Order → Action → Handler → Result (Unit {0}) × Handler
obey under cancel_action a h = let (r, h') = reply ordered h in (r, stop_cmd a h')
obey under (add_info_to_summary none) a h = (err name_error, h)
obey under (add_info_to_summary (some params)) a h = add_info a params h
obey under start_scenario_stable_check a h = start_check a h
obey under stop_scenario_stable_check a h = stop_check under a h
obey under other_order a h = reply not_handled h

-- With or without a message in the queue.
unfoldable pub read_udp_cmd :
    (Rate → ℕ → Bool) → Option Order → Action → Handler → Result (Unit {0}) × Handler
unfolding stop_cmd
read_udp_cmd under none a h = (ok tt, h)
read_udp_cmd under (some o) a h = obey under o a h
